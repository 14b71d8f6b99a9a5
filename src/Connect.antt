-- ===== src/Connect.antt =====
-- Opening the database (src/db/connect.rs). The environment, the file system and the engine's own
-- opening are arguments.
pub mod Encoding
pub mod Attempts
use mercury_cortex_core.Common.{
  ℕ, zero, suc, ◌+◌, ◌-◌, ◌*◌, ◌/◌, ◌%◌, ◌^◌, Bool, true, false, ◌||◌, ◌&&◌, List, [], ◌∷◌, ◌++◌,
  Option, none, some, leb, ltb, ◌==◌, if◌then◌else◌, unwrap_or,
}
use mercury_cortex_core.Common.Results.{Result, ok, err}
use mercury_cortex_core.Text.{Text, codes, is_empty, trim}
use mercury_cortex_core.Paths.{join_path}

-- `data_dir`, from the environment variable and the home directory.
pub data DirError : Type 0 where
  empty_override no_home : DirError

unfoldable pub data_dir : Option Text → Option Text → Result Text DirError
unfolding join_path
data_dir (some dir) home = if is_empty dir then err empty_override else ok dir
data_dir none (some h) = ok (join_path (join_path h (codes ".mercury")) (codes "cortex"))
data_dir none none = err no_home

-- `resolve_encryption_key`: the key in the file, or else that of the environment.
key_in_file : {E : Type 0} → Option (Result Text E) → Option Text
unfolding trim
key_in_file none = none
key_in_file (some (err e)) = none
key_in_file (some (ok key)) = if is_empty (trim key) then none else some (trim key)

unfoldable pub resolve_encryption_key :
    {E : Type 0} → Option (Result Text E) → Option Text → Option Text
unfolding key_in_file
resolve_encryption_key file variable = elim (key_in_file file) [
  | some key ↦ some key
  | none ↦ variable
]

-- `percent_encode`, on the bytes.
unfoldable pub unreserved : ℕ → Bool
unreserved b =
    (leb b'A' b && leb b b'Z')
    || (leb b'a' b && leb b b'z')
    || (leb b'0' b && leb b b'9')
    || b == b'-'
    || b == b'.'
    || b == b'_'
    || b == b'~'

unfoldable pub hex_digit : ℕ → ℕ
hex_digit n = if ltb n 10 then 48 + n else 55 + n

unfoldable pub percent_encode : Text → Text
unfolding unreserved hex_digit
percent_encode [] = []
percent_encode (b ∷ bs) =
    (if unreserved b then b ∷ [] else b'%' ∷ hex_digit (b / 16) ∷ hex_digit (b % 16) ∷ [])
    ++ percent_encode bs

-- The text that `initialize` opens.
unfoldable pub connection_text : Text → Option Text → Text
unfolding percent_encode
connection_text db_path none = db_path
connection_text db_path (some key) =
    if is_empty key then db_path else db_path ++ (codes "?encryption_key=" ++ percent_encode key)

pub record RetryConfig : Type 0 where
  pub max_retries : ℕ
  pub base_delay : ℕ  -- in milliseconds

abbrev pub default_retry : RetryConfig
default_retry = record { max_retries = 3; base_delay = 1000 }

-- `W` is the state of the world, `D` the database handle.
pub record Opening (W D E : Type 0) : Type 0 where
  pub initialize : W → W × Result D E
  pub lock_exists : W → Bool
  pub remove_lock : W → W
  pub sleep : ℕ → W → W
  pub no_error : E

module _ {W D E : Type 0} (o : Opening W D E) where
  -- A failure is tried again without the lock file, if there is one.
  recover : W × Result D E → W × Result D E
  recover (w, ok db) = (w, ok db)
  recover (w, err e) = if o.lock_exists w then o.initialize (o.remove_lock w) else (w, err e)

  unfoldable pub try_connect : W → W × Result D E
  unfolding recover
  try_connect w = recover (o.initialize w)

  -- The product of a `Duration` and a number, which panics where no `Duration` holds it.
  unfoldable pub slept : ℕ → W → Option W
  slept delay w = if ltb delay (2 ^ 64 * 1000) then some (o.sleep delay w) else none

  -- `none` is a panic. The power is a `u32`, which wraps around in a build without overflow checks.
  unfoldable pub pause : RetryConfig → ℕ → W → Option W
  unfolding slept
  pause config zero w = some w
  pause config (suc n) w = slept (config.base_delay * (2 ^ n % 2 ^ 32)) w

  abbrev pub Connected : Type 0
  Connected = Option (W × Result D E)

  unfoldable pub after_pause : Option W → (W → Connected) → Connected
  after_pause none next = none
  after_pause (some w) next = next w

  -- `match try_connect(…)`
  unfoldable pub decide : W × Result D E → (W → E → Connected) → Connected
  decide (w, ok db) again = some (w, ok db)
  decide (w, err e) again = again w e

  -- The loop, with the rounds that are left and the number of the next one.
  unfoldable pub attempts : RetryConfig → ℕ → ℕ → Option E → W → Connected
  unfolding try_connect pause decide after_pause
  attempts config zero attempt last_error w = some (w, err (unwrap_or last_error o.no_error))
  attempts config (suc left) attempt last_error w =
      after_pause (pause config attempt w)
        (λ w1. decide (try_connect w1) (λ w' e. attempts config left (suc attempt) (some e) w'))

  unfoldable pub connect_at : RetryConfig → W → Connected
  unfolding attempts
  connect_at config w = attempts config (config.max_retries + 1) 0 none w

-- `lock_is_held`: what opening the file gives, and then the attempt to lock it.
pub data LockProbe (E : Type 0) : Type 0 where
  no_file free would_block : LockProbe E
  open_error lock_error : E → LockProbe E

unfoldable pub lock_is_held : {E : Type 0} → LockProbe E → Result Bool E
lock_is_held no_file = ok false
lock_is_held free = ok false
lock_is_held would_block = ok true
lock_is_held (open_error e) = err e
lock_is_held (lock_error e) = err e
