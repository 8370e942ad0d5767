-- ===== src/Oauth/Flow/Memory.antt =====
-- Methods of pkg/oauth/flow.go whose result is the token in memory, and how they compose.
use mcpurl.Prelude.{Bool, true, false, some, ◌≡◌, if_both, if◌then◌else◌}
use mcpurl.Prelude.Bytes.{Bytes}
use mcpurl.Oauth.Types.{Token}
use mcpurl.Oauth.Flow.Monad.{
  Error, lock_error, Outside, Flow, Result, ok, err, M, fail, outer, continue, ◌>>=◌, handle,
}
use mcpurl.Oauth.Flow.Client.{with_lock}

module _ {o : Outside} where
  abbrev pub IsCached : Result Bytes × Flow o → Type 0
  IsCached (ok a, f) = (t : Token) × ((f.cached ≡ some t) × (t.access_token ≡ a))
  IsCached (err e, f) = Unit {0}

  -- A method whose result, if it is a token, is the one in memory.
  pub record Caches (m : M o Bytes) : Type 0 where
    pub cached_at : (f : Flow o) → IsCached (m f)

  continue-IsCached :
      {A : Type 0} (x : Result A × Flow o) (k : A → M o Bytes)
      → ((a : A) → Caches (k a))
      → IsCached (continue x k)
  continue-IsCached (ok a, f) k q = (q a).cached_at f
  continue-IsCached (err e, f) k q = tt

  pub bind-Caches :
      {A : Type 0} (m : M o A) {k : A → M o Bytes} → ((a : A) → Caches (k a)) → Caches (m >>= k)
  unfolding ◌>>=◌
  bind-Caches m {k = k} q = record { cached_at = λ f. continue-IsCached (m f) k q }

  pub handle-Caches :
      {A : Type 0} (m : M o A) {k : Result A → M o Bytes}
      → ((r : Result A) → Caches (k r))
      → Caches (handle m k)
  unfolding handle
  handle-Caches m {k = k} q = record { cached_at = λ f. (q ((m f).0)).cached_at ((m f).1) }

  pub branch-Caches :
      (b : Flow o → Bool) {m n : M o Bytes}
      → Caches m
      → Caches n
      → Caches (λ f. if b f then m f else n f)
  branch-Caches b p q = record {
    cached_at = λ f. if_both IsCached (b f) (p.cached_at f) (q.cached_at f);
  }

  pub fail-Caches : (e : Error) → Caches (fail {o = o} e)
  fail-Caches e = record { cached_at = λ f. tt }

  pub if-Caches : (b : Bool) {m n : M o Bytes} → Caches m → Caches n → Caches (if b then m else n)
  if-Caches true p q = p
  if-Caches false p q = q

  pub with_lock-Caches : (key : Bytes) {m : M o Bytes} → Caches m → Caches (with_lock key m)
  unfolding with_lock
  with_lock-Caches key p = bind-Caches (outer _) λ got. if-Caches got p (fail-Caches lock_error)
