-- ===== src/Tests/Clients.antt =====
-- A client on a database that is busy at first; the world counts what is done.
use mercury_cortex_core.Common.{
  ℕ, suc, ◌+◌, ◌≡◌, refl, false, List, [], ◌∷◌, none, ltb, if◌then◌else◌,
}
use mercury_cortex_core.Common.Results.{ok, err}
use mercury_cortex_core.Text.{Text, codes}
use mercury_cortex_core.Connect.{Opening}
use mercury_cortex_core.Project.{ServiceError}
use mercury_cortex_core.Client.{ClientState, service_error, database_error, open_with_data_dir}
use mercury_cortex_core.Client.Session.{Function, calls, Session, calls-Session}

abbrev opening : Text → Opening ℕ ℕ Text
opening path = record {
  initialize = λ w. (suc w, if ltb w 5 then err (codes "busy") else ok 7);
  lock_exists = λ w. false;
  remove_lock = λ w. w;
  sleep = λ n w. w;
  no_error = codes "none";
}

abbrev add_handle : Function ℕ ℕ ℕ ServiceError
add_handle db w = (w + db, ok w)

abbrev client : ClientState ℕ ℕ
client = record { world = 0; ctx = open_with_data_dir 1 (codes "/d") }

abbrev three : List (Function ℕ ℕ ℕ ServiceError)
three = add_handle ∷ add_handle ∷ add_handle ∷ []

no_connection : client.ctx.db ≡ none
unfolding open_with_data_dir
no_connection = refl

-- The first call fails, the second one connects, the third one does not connect again.
connects_once :
    (calls opening service_error three client).1
    ≡ err (database_error (codes "busy")) ∷ ok 6 ∷ ok 13 ∷ []
unfolding open_with_data_dir mercury_cortex_core.Client.with_database
connects_once = refl

calls-Session_example :
    Session opening service_error client.ctx three 0
      (calls opening service_error three client).0.world
      (calls opening service_error three client).1
      (calls opening service_error three client).0.ctx
calls-Session_example = calls-Session opening service_error three client no_connection
