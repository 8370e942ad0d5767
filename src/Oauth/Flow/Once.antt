-- ===== src/Oauth/Flow/Once.antt =====
-- Counting logins over the methods of pkg/oauth/flow.go: those that never start one, and those that
-- start at most one.
use mcpurl.Prelude.{
  ℕ, ◌+◌, Bool, true, false, List, [], ◌∷◌, ◌++◌, ◌≡◌, refl, ◌∙◌, arith, ◌⊎◌, inl, inr, if_both,
  if◌then◌else◌,
}
use mcpurl.Prelude.Bytes.{Bytes}
use mcpurl.Oauth.Flow.Monad.{
  Call, refreshed, logged_in, registered_client, Error, client_gone, Outside, Flow, Result, ok, err,
  M, pure, fail, outer, continue, ◌>>=◌, handle,
}

-- How many times the browser login was started.
unfoldable pub logins : List Call → ℕ
logins [] = 0
logins (logged_in ∷ cs) = 1 + logins cs
logins (refreshed t ∷ cs) = logins cs
logins (registered_client ∷ cs) = logins cs

pub logins-logged_in : (cs : List Call) → logins (cs ++ (logged_in ∷ [])) ≡ 1 + logins cs
unfolding logins
logins-logged_in [] = refl
logins-logged_in (logged_in ∷ cs) = rw (logins-logged_in cs)
logins-logged_in (refreshed t ∷ cs) = logins-logged_in cs
logins-logged_in (registered_client ∷ cs) = logins-logged_in cs

pub logins-refreshed : (t : Bytes) (cs : List Call) → logins (cs ++ (refreshed t ∷ [])) ≡ logins cs
unfolding logins
logins-refreshed t [] = refl
logins-refreshed t (logged_in ∷ cs) = rw (logins-refreshed t cs)
logins-refreshed t (refreshed u ∷ cs) = logins-refreshed t cs
logins-refreshed t (registered_client ∷ cs) = logins-refreshed t cs

pub logins-registered : (cs : List Call) → logins (cs ++ (registered_client ∷ [])) ≡ logins cs
unfolding logins
logins-registered [] = refl
logins-registered (logged_in ∷ cs) = rw (logins-registered cs)
logins-registered (refreshed u ∷ cs) = logins-registered cs
logins-registered (registered_client ∷ cs) = logins-registered cs

-- Whether a result asks for another round.
unfoldable pub is_gone : {A : Type 0} → Result A → Bool
is_gone (err client_gone) = true
is_gone (err e) = false
is_gone (ok a) = false

module _ {o : Outside} where
  abbrev pub IsQuietFrom : {A : Type 0} → ℕ → Result A × Flow o → Type 0
  IsQuietFrom n (r, f) = logins f.calls ≡ n

  -- A method that starts no login.
  pub record IsQuiet {A : Type 0} (m : M o A) : Type 0 where
    pub quiet_at : (f : Flow o) → IsQuietFrom (logins f.calls) (m f)

  abbrev pub IsOnceFrom : {A : Type 0} → ℕ → Result A × Flow o → Type 0
  IsOnceFrom n (r, f) = (logins f.calls ≡ n) ⊎ ((logins f.calls ≡ 1 + n) × (is_gone r ≡ false))

  -- A method that starts at most one login, and after one never asks for another round.
  pub record IsOnce {A : Type 0} (m : M o A) : Type 0 where
    pub once_at : (f : Flow o) → IsOnceFrom (logins f.calls) (m f)

  pub IsQuiet-IsOnce : {A : Type 0} {m : M o A} → IsQuiet m → IsOnce m
  IsQuiet-IsOnce q = record { once_at = λ f. inl (q.quiet_at f) }

  continue-IsQuiet :
      {A B : Type 0} (n : ℕ) (x : Result A × Flow o) (k : A → M o B)
      → IsQuietFrom n x
      → ((a : A) → IsQuiet (k a))
      → IsQuietFrom n (continue x k)
  continue-IsQuiet n (ok a, f) k e q = (q a).quiet_at f ∙ e
  continue-IsQuiet n (err x, f) k e q = e

  shift :
      {A : Type 0} {n n' : ℕ} (x : Result A × Flow o) → n ≡ n' → IsOnceFrom n x → IsOnceFrom n' x
  shift (r, f) e (inl p) = inl (p ∙ e)
  shift (r, f) e (inr (p, g)) = inr (omega arith, g)

  continue-IsOnce :
      {A B : Type 0} (n : ℕ) (x : Result A × Flow o) (k : A → M o B)
      → IsQuietFrom n x
      → ((a : A) → IsOnce (k a))
      → IsOnceFrom n (continue x k)
  continue-IsOnce n (ok a, f) k e q = shift (k a f) e ((q a).once_at f)
  continue-IsOnce n (err x, f) k e q = inl e

  pub bind-IsQuiet :
      {A B : Type 0} {m : M o A} {k : A → M o B}
      → IsQuiet m
      → ((a : A) → IsQuiet (k a))
      → IsQuiet (m >>= k)
  unfolding ◌>>=◌
  bind-IsQuiet {m = m} {k = k} p q = record {
    quiet_at = λ f. continue-IsQuiet (logins f.calls) (m f) k (p.quiet_at f) q;
  }

  pub bind-IsOnce :
      {A B : Type 0} {m : M o A} {k : A → M o B}
      → IsQuiet m
      → ((a : A) → IsOnce (k a))
      → IsOnce (m >>= k)
  unfolding ◌>>=◌
  bind-IsOnce {m = m} {k = k} p q = record {
    once_at = λ f. continue-IsOnce (logins f.calls) (m f) k (p.quiet_at f) q;
  }

  pub handle-IsQuiet :
      {A B : Type 0} {m : M o A} {k : Result A → M o B}
      → IsQuiet m
      → ((r : Result A) → IsQuiet (k r))
      → IsQuiet (handle m k)
  unfolding handle
  handle-IsQuiet {m = m} {k = k} p q = record {
    quiet_at = λ f. (q ((m f).0)).quiet_at ((m f).1) ∙ p.quiet_at f;
  }

  pub handle-IsOnce :
      {A B : Type 0} {m : M o A} {k : Result A → M o B}
      → IsQuiet m
      → ((r : Result A) → IsOnce (k r))
      → IsOnce (handle m k)
  unfolding handle
  handle-IsOnce {m = m} {k = k} p q = record {
    once_at = λ f. shift (k ((m f).0) ((m f).1)) (p.quiet_at f) ((q ((m f).0)).once_at ((m f).1));
  }

  pub outer-IsQuiet : {A : Type 0} (call : o.State → A × o.State) → IsQuiet (outer {o = o} call)
  unfolding outer
  outer-IsQuiet call = record { quiet_at = λ f. refl }

  pub if-IsQuiet :
      {A : Type 0} (b : Bool) {m n : M o A} → IsQuiet m → IsQuiet n → IsQuiet (if b then m else n)
  if-IsQuiet true p q = p
  if-IsQuiet false p q = q

  pub if-IsOnce :
      {A : Type 0} (b : Bool) {m n : M o A} → IsOnce m → IsOnce n → IsOnce (if b then m else n)
  if-IsOnce true p q = p
  if-IsOnce false p q = q

  pub branch-IsQuiet :
      {A : Type 0} (b : Flow o → Bool) {m n : M o A}
      → IsQuiet m
      → IsQuiet n
      → IsQuiet (λ f. if b f then m f else n f)
  branch-IsQuiet b {m = m} {n = n} p q = record {
    quiet_at = λ f. if_both (IsQuietFrom (logins f.calls)) (b f) (p.quiet_at f) (q.quiet_at f);
  }

  pub branch-IsOnce :
      {A : Type 0} (b : Flow o → Bool) {m n : M o A}
      → IsOnce m
      → IsOnce n
      → IsOnce (λ f. if b f then m f else n f)
  branch-IsOnce b {m = m} {n = n} p q = record {
    once_at = λ f. if_both (IsOnceFrom (logins f.calls)) (b f) (p.once_at f) (q.once_at f);
  }

  -- The state alone decides which method runs.
  pub pick-IsQuiet :
      {A B : Type 0} (g : Flow o → B) {m : B → M o A}
      → ((b : B) → IsQuiet (m b))
      → IsQuiet (λ f. m (g f) f)
  pick-IsQuiet g p = record { quiet_at = λ f. (p (g f)).quiet_at f }

  pub pick-IsOnce :
      {A B : Type 0} (g : Flow o → B) {m : B → M o A}
      → ((b : B) → IsOnce (m b))
      → IsOnce (λ f. m (g f) f)
  pick-IsOnce g p = record { once_at = λ f. (p (g f)).once_at f }

  pub pure-IsQuiet : {A : Type 0} (a : A) → IsQuiet (pure {o = o} a)
  pure-IsQuiet a = record { quiet_at = λ f. refl }

  pub fail-IsQuiet : {A : Type 0} (e : Error) → IsQuiet (fail {o = o} {A = A} e)
  fail-IsQuiet e = record { quiet_at = λ f. refl }
