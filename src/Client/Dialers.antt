-- ===== src/Client/Dialers.antt =====
-- go/client/client_conn.go: the table of dialers, by scheme, and the callbacks for a close. `D` is the
-- type of dialers and `H` that of callbacks.
use openapi_protocol.Base.{
  ℕ, ◌≡◌, refl, ap, List, [], ◌∷◌, ◌++◌, bytes_eq, if◌then◌else◌, Option, none, some,
}
use openapi_protocol.Base.Result.{Result, ok, panic}

module _ {D : Type 0} where
  unfoldable pub get_dialer : List ℕ → List (List ℕ × D) → Option D
  get_dialer scheme [] = none
  get_dialer scheme ((s, d) ∷ ds) = if bytes_eq s scheme then some d else get_dialer scheme ds

  -- A second dialer for a scheme is a panic.
  unfoldable pub add_dialer : List ℕ → D → List (List ℕ × D) → Option D → Result (List (List ℕ × D))
  add_dialer scheme fn ds none = ok ((scheme, fn) ∷ ds)
  add_dialer scheme fn ds (some d) = panic

  unfoldable pub register_dialer : List ℕ → D → List (List ℕ × D) → Result (List (List ℕ × D))
  register_dialer scheme fn ds = add_dialer scheme fn ds (get_dialer scheme ds)

  added :
      (scheme : List ℕ) (fn : D) (ds ds' : List (List ℕ × D)) (found : Option D)
      → add_dialer scheme fn ds found ≡ ok ds'
      → (found ≡ none) × (ds' ≡ (scheme, fn) ∷ ds)
  unfolding add_dialer
  added scheme fn ds ds' none h = (refl, cc h)
  added scheme fn ds ds' (some d) h = cc h

  -- A registration succeeds only for a scheme without a dialer, gives it the new one, and leaves those
  -- of all other schemes.
  get_dialer-register_dialer :
      (scheme other : List ℕ) (fn : D) (ds ds' : List (List ℕ × D))
      → register_dialer scheme fn ds ≡ ok ds'
      → (get_dialer scheme ds ≡ none)
        × (get_dialer other ds' ≡ (if bytes_eq scheme other then some fn else get_dialer other ds))
  unfolding register_dialer get_dialer
  get_dialer-register_dialer scheme other fn ds ds' h =
      let a = added scheme fn ds ds' (get_dialer scheme ds) h in (a.0, rw a.1 refl)

-- `OnClose` and `DispatchClose`, which runs the callbacks in the order of their registration.
unfoldable pub on_close : {H : Type 0} → H → List H → List H
on_close cb callbacks = callbacks ++ (cb ∷ [])

unfoldable pub dispatch_close : {H E : Type 0} → List H → E → List (H × E)
dispatch_close [] e = []
dispatch_close (cb ∷ cbs) e = (cb, e) ∷ dispatch_close cbs e

dispatch_close-on_close :
    {H E : Type 0} (cb : H) (callbacks : List H) (e : E)
    → dispatch_close (on_close cb callbacks) e ≡ dispatch_close callbacks e ++ ((cb, e) ∷ [])
unfolding on_close dispatch_close
dispatch_close-on_close cb [] e = refl
dispatch_close-on_close cb (f ∷ fs) e =
    ap (λ (es : List _). (f, e) ∷ es) (dispatch_close-on_close cb fs e)
