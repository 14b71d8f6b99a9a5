-- ===== src/Tests/Stores.antt =====
-- The restore of src/db/backup.rs, the connection of src/db/connect.rs and the files of
-- src/service/scaffold.rs.
use mercury_cortex_core.Common.{
  ◌∷◌, if◌then◌else◌, Bool, map, leb, ◌&&◌, ℕ, ◌≡◌, refl, true, false, [], Option, none, some, all,
  ◌==◌, ◌||◌, ◌+◌,
}
use mercury_cortex_core.Common.Results.{ok, err}
use mercury_cortex_core.Text.{Text, codes}
use mercury_cortex_core.Restore.{Ending, Disk, Calls, restore}
use mercury_cortex_core.Restore.Crash.{AllKept, restore-Kept}
use mercury_cortex_core.Connect.{default_retry, Opening, connect_at, percent_encode, unreserved}
use mercury_cortex_core.Connect.Encoding.{decode, decode-percent_encode, percent_encode-safe}
use mercury_cortex_core.Connect.Attempts.{Runs, connect_at-Runs}
use mercury_cortex_core.Scaffold.{create_or_update_agents_md, slugify}
use mercury_cortex_core.Scaffold.Slug.{IsSlug, slugify-IsSlug}
use mercury_cortex_core.Scaffold.Pointer.{HasPointer, create_or_update_agents_md-twice}

-- The rename of the copy fails and the database is rolled back.
abbrev calls : Calls ℕ Text
calls = record {
  backup = some 2;
  lock_before = ok false;
  lock_after = ok false;
  middle = some 0;
  remove_temp = ok tt;
  remove_old = ok tt;
  copy = ok tt;
  sync_tree = ok tt;
  rename_live = ok tt;
  rename_temp = err (codes "denied");
  rename_back = true;
  left = none;
  left_temp = none;
  left_old = none;
  fsync = ok tt;
}

abbrev disk : Disk ℕ
disk = record { db = some 1; temp = none; old = some 5 }

-- The last state that a restore leaves.
abbrev last_disk : {T E : Type 0} → Ending T E → Disk T → Disk T
last_disk ([], _) d = d
last_disk (d' ∷ _, _) d = d'

rolled_back : (last_disk (restore calls disk) disk).db ≡ some 1
unfolding restore
rolled_back = refl

restore-Kept_example : AllKept 1 2 (restore calls disk).0
restore-Kept_example = restore-Kept calls 1 2 disk refl refl

abbrev key : Text
key = codes "a&b=c%"

encoded : percent_encode key ≡ codes "a%26b%3Dc%25"
unfolding percent_encode
encoded = refl

decode-percent_encode_example : decode (percent_encode key) ≡ key
decode-percent_encode_example = decode-percent_encode key refl

encoded_key_is_safe : all (λ b. unreserved b || b == b'%') (percent_encode key) ≡ true
encoded_key_is_safe = percent_encode-safe key refl

-- The world counts the openings, and the fourth of them succeeds.
abbrev opening : Opening ℕ Text Text
opening = record {
  initialize = λ n. (n + 1, if n == 3 then ok (codes "db") else err (codes "busy"));
  lock_exists = λ n. false;
  remove_lock = λ n. n;
  sleep = λ ms n. n;
  no_error = [];
}

fourth : connect_at opening default_retry 0 ≡ some (4, ok (codes "db"))
unfolding connect_at
fourth = refl

connect_at-Runs_example :
    Runs opening default_retry 0
      (default_retry.max_retries + 1)
      []
      0
      (connect_at opening default_retry 0)
connect_at-Runs_example = connect_at-Runs opening default_retry 0

abbrev readme : Option Text
readme = some (codes "# Agents")

agents_written : (create_or_update_agents_md {E = Text} (ok tt) (ok tt) readme).1 ≡ ok tt
unfolding create_or_update_agents_md
agents_written = refl

pointer_is_added_once :
    HasPointer (create_or_update_agents_md {E = Text} (ok tt) (ok tt) readme).0
    × ((create_or_update_agents_md {E = Text}
          (err [])
          (ok tt)
          (create_or_update_agents_md {E = Text} (ok tt) (ok tt) readme).0).0
        ≡ (create_or_update_agents_md {E = Text} (ok tt) (ok tt) readme).0)
pointer_is_added_once =
    create_or_update_agents_md-twice {E = Text} (ok tt) (ok tt) (err []) (ok tt) readme
      agents_written

-- Digits and small letters, the ASCII lower case.
abbrev lower : Text → Text
lower s = map (λ c. if leb 65 c && leb c 90 then c + 32 else c) s

abbrev alphanumeric : ℕ → Bool
alphanumeric c = (leb 97 c && leb c 122) || (leb 48 c && leb c 57)

slug_of_a_name : slugify lower alphanumeric (codes "_My App (2)") ≡ codes "my-app-2"
unfolding slugify
slug_of_a_name = refl

slugify-IsSlug_example : IsSlug alphanumeric (slugify lower alphanumeric (codes "_My App (2)"))
slugify-IsSlug_example = slugify-IsSlug lower alphanumeric (codes "_My App (2)")
