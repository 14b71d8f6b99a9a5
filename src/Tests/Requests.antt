-- ===== src/Tests/Requests.antt =====
-- The services on a database of three numbers, and on one that answers with an object.
use mercury_cortex_core.Common.{
  ◌+◌, ◌^◌, ℕ, ◌≡◌, refl, true, false, List, [], ◌∷◌, ◌*◌, none, some, arith, take, drop, unwrap_or,
  ap, ap₂,
}
use mercury_cortex_core.Common.Results.{ok, err}
use mercury_cortex_core.Text.{Text, codes, text_eq}
use mercury_cortex_core.Records.{Values}
use mercury_cortex_core.Project.{Sent, validation}
use mercury_cortex_core.Services.{Library}
use mercury_cortex_core.Services.FileData.{
  FileDataFilterParams, start_of, list, filter_binds, get_by_id,
}
use mercury_cortex_core.Services.Profile.{get, email_exists}
use mercury_cortex_core.Services.Graph.{list_all}
use mercury_cortex_core.Services.Paging.{Serving, pages, pages-rows}
use mercury_cortex_core.Common.Maps.{lookup}

abbrev values : Values ℕ
values = record {
  as_record_id = λ v. none;
  field = λ name v. some v;
  is_object = λ v. true;
  as_text = λ v. some (codes "text");
  timestamp = λ v. none;
  of_text = λ t. 0;
  of_record = λ r. 0;
  of_list = λ vs. 0;
}

abbrev numbers : List ℕ
numbers = 7 ∷ 8 ∷ 9 ∷ []

abbrev number_of : Text → List (Text × ℕ) → ℕ
number_of name binds = unwrap_or (lookup text_eq name binds) 0

abbrev served : List (Text × ℕ) → List ℕ
served binds =
    take (number_of (codes "limit") binds) (drop (number_of (codes "start") binds) numbers)

abbrev library : Library ℕ
library = record {
  db = record { values = values; reply = λ sent s. ok (served s.binds) };
  reply_value = λ sent s. ok 0;
  parse_simple = λ t. err (codes "no id");
  of_i64 = λ n. n;
  json_text = λ v. none;
}

abbrev params : FileDataFilterParams
params = record {
  page = some 2;
  limit = some 2;
  project_id = none;
  path_filter = some (codes "src");
  purpose_filter = none;
}

library-Serving : Serving library (λ sql binds. numbers)
library-Serving = record {
  serves = λ sent s rest limit start e h k hl hs.
      let n : number_of (codes "limit") s.binds ≡ limit = ap (λ o. unwrap_or o 0) h in
      let m : number_of (codes "start") s.binds ≡ start = ap (λ o. unwrap_or o 0) k in
      ap₂ (λ x y. ok (take x (drop y numbers))) n m;
}

second_page : (list library params []).1 ≡ ok (9 ∷ [])
unfolding list lookup text_eq
second_page = refl

filters_accepted :
    (s : Sent ℕ) → filter_binds library params s ≡ (s, ok ((codes "path_filter", 0) ∷ []))
unfolding filter_binds
filters_accepted s = refl

pages-rows_example : (pages library params 2 2 []).1 ≡ ok (take (2 * 2) numbers)
pages-rows_example =
    pages-rows library (λ sql binds. numbers) library-Serving params 2
      ((codes "path_filter", 0) ∷ []) filters_accepted 2 [] (omega arith) (omega arith)

-- The product wraps around: a page far beyond the last one is the first.
wrapped_page : start_of (2 ^ 63 + 1) 2 ≡ 0
unfolding start_of
wrapped_page = refl

-- A request with an id that does not parse sends nothing.
invalid_id :
    get_by_id library (codes "x") [] ≡ ([], err (validation (codes "invalid file_data id: no id")))
unfolding get_by_id
invalid_id = refl

no_users : (get library []).1 ≡ ok none
unfolding get lookup
no_users = refl

own_email : email_exists library (codes "a@b") (some (codes "a@b")) [] ≡ ([], ok false)
unfolding email_exists text_eq
own_email = refl

no_edges : (list_all library []).1 ≡ ok []
unfolding list_all lookup
no_edges = refl
