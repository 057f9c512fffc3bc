-- ===== src/Rootd/Gate.antt =====
-- What the gate keeps, and the service over a store in memory.
use wird.Prelude.{◌≡◌, refl, Bool, true, false, ◌++◌, Option-cases, inl, inr, ◌==◌, nat_eq, list_eq}
use wird.Text.{is_empty}
use wird.Root.Store.{Store}
use wird.Rootd.Limiter.{Limiter, allow}
use wird.Rootd.Answers.{
  Request, Http, Target, healthz, root_of, roots_batch, root_letters, unknown_path, wrong_method,
}
use wird.Rootd.Service.{Server, authenticated, bearer, caller_of, throttled, gate, serve}

module _ {F : Type 0} (h : Http) (s : Server F) (other : Store) (r : Request)
    (keyed : is_empty s.api_key ≡ false)
    (wrong : (r.authorization == (bearer h s ++ s.api_key)) ≡ false) where
  abbrev swapped : Server F
  swapped = record s { store = other }

  same_authenticated : authenticated h s r ≡ authenticated h swapped r
  unfolding authenticated
  same_authenticated = rw (keyed, wrong) refl

  same_throttled : (a : Limiter F × Bool) → (throttled h s r a).1 ≡ (throttled h swapped r a).1
  same_throttled (l, true) = same_authenticated
  same_throttled (l, false) = refl

  same_gate : (gate h s r).1 ≡ (gate h swapped r).1
  unfolding gate
  same_gate = elim (Option-cases s.limiter) [
    | inl e ↦ rw (e, gate) same_authenticated
    | inr (l, e) ↦ rw (e, gate) (same_throttled (allow l (caller_of h s r) r.now))
  ]

  -- Where a key is set, a request that does not carry it is answered the same whatever the store
  -- holds.
  pub keyless_blind : (serve h s r).1 ≡ (serve h swapped r).1
  unfolding serve
  keyless_blind = at_target r.target refl
    where
      at_target : (t : Target) → r.target ≡ t → (serve h s r).1 ≡ (serve h swapped r).1
      at_target healthz e = rw (e, serve) refl
      at_target (root_of q) e = rw (e, serve) same_gate
      at_target (roots_batch b) e = rw (e, serve) same_gate
      at_target (root_letters l) e = rw (e, serve) same_gate
      at_target unknown_path e = rw (e, serve) same_gate
      at_target wrong_method e = rw (e, serve) same_gate
