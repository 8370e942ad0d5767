-- ===== src/Oauth/Flow/Monad.antt =====
-- The state of a `Flow`, what it calls outside, and methods that may fail.
use mcpurl.Prelude.{ℕ, Bool, List, [], ◌∷◌, ◌++◌, Option}
use mcpurl.Prelude.Bytes.{Bytes}
use mcpurl.Oauth.Discovery.{Web}
use mcpurl.Oauth.Types.{Token, Registration, Discovery}

-- What a lookup in a store gives; `corrupt` is the error of an unreadable registration.
pub data Lookup (A : Type 0) : Type 0 where
  found : A → Lookup A
  not_found corrupt unreadable : Lookup A

-- The token endpoint's answer: no answer, its status with the `error` of the body where it is not
-- 200, a body that is no JSON, or the fields of the token response. An `expires_in` that is not
-- positive is 0; the others count seconds.
pub record Response : Type 0 where
  pub access_token : Bytes
  pub refresh_token : Bytes
  pub expires_in : ℕ
  pub scope : Bytes

pub data Reply : Type 0 where
  unreachable bad_json : Reply
  failed : Bytes → Reply
  issued : Response → Reply

-- A registration endpoint's answer, in the order of the source's checks.
pub record Registered : Type 0 where
  pub client_id : Bytes
  pub client_secret : Bytes
  pub redirect_uris : List Bytes

pub data Answer : Type 0 where
  no_answer http_failure no_json : Answer
  registered : Registered → Answer

pub data Error : Type 0 where
  bad_endpoint no_client client_gone corrupt_registration store_error lock_error discovery_error :
      Error
  no_registration insecure registration_refused not_saved : Error
  rejected_fresh refresh_failed invalid_grant invalid_client login_failed : Error

pub data Result {ℓ} (A : Type ℓ) : Type ℓ where
  ok : A → Result A
  err : Error → Result A

-- `acquire` waits for a lock, and other processes may have changed the stores meanwhile.
pub record Outside : Type 1 where
  pub State : Type 0
  pub now : State → ℕ
  pub load : Bytes → State → Lookup Token × State
  pub save : Bytes → Token → State → Bool × State
  pub delete : Bytes → State → Bool × State
  pub load_client : Bytes → State → Lookup Registration × State
  pub save_client : Bytes → Registration → State → Bool × State
  pub delete_client : Bytes → State → Bool × State
  pub acquire : Bytes → State → Bool × State
  pub web : Web State
  pub post_refresh : Discovery → Bytes → Bytes → Bytes → State → Reply × State
  pub post_register : Bytes → Bytes → State → Answer × State
  pub login : Discovery → Bytes → List Bytes → State → Option Token × State

-- The fields of `Flow` that are set once; `key_of` is `Key`.
pub record Config : Type 0 where
  pub endpoint : Bytes
  pub issuer : Bytes
  pub client_id : Bytes
  pub scopes : List Bytes
  pub redirect_uri : Bytes
  pub key_of : Bytes → Bytes → Bytes

-- Calls of the authorization server and of the browser, oldest first.
pub data Call : Type 0 where
  refreshed : Bytes → Call
  logged_in registered_client : Call

module _ (o : Outside) where
  pub record Flow : Type 0 where
    pub cached : Option Token
    pub reg : Option Registration
    pub last_refreshed : Bytes
    pub last_logged_in : Bytes
    pub disco : Option Discovery
    pub outside : o.State
    pub calls : List Call

abbrev pub M : Outside → Type 0 → Type 0
M o A = Flow o → Result A × Flow o

module _ {o : Outside} where
  abbrev pub pure : {A : Type 0} → A → M o A
  pure a f = (ok a, f)

  abbrev pub fail : {A : Type 0} → Error → M o A
  fail e f = (err e, f)

  -- A call outside.
  unfoldable pub outer : {A : Type 0} → (o.State → A × o.State) → M o A
  outer call f = let (a, s) = call f.outside in (ok a, record f { outside = s })

  abbrev pub gets : {A : Type 0} → (Flow o → A) → M o A
  gets g f = (ok (g f), f)

  abbrev pub modify : (Flow o → Flow o) → M o (Unit {0})
  modify g f = (ok tt, g f)

  abbrev pub note : Call → M o (Unit {0})
  note c f = (ok tt, record f { calls = f.calls ++ (c ∷ []) })

  abbrev pub continue : {A B : Type 0} → Result A × Flow o → (A → M o B) → Result B × Flow o
  continue (ok a, f) k = k a f
  continue (err e, f) k = (err e, f)

  infixl 5 ◌>>=◌ ◌>>◌
  unfoldable pub ◌>>=◌ : {A B : Type 0} → M o A → (A → M o B) → M o B
  ◌>>=◌ m k f = continue (m f) k

  abbrev pub ◌>>◌ : {B : Type 0} → M o (Unit {0}) → M o B → M o B
  m >> n = m >>= λ _. n

  -- What follows an error too.
  unfoldable pub handle : {A B : Type 0} → M o A → (Result A → M o B) → M o B
  handle m k f = let (r, g) = m f in k r g
