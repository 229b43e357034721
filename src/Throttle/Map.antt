-- ===== src/Throttle/Map.antt =====
-- Laws of the map that `Throttle` keeps.
use powerdns_improved_lua.Prelude.{ℕ, ◌≤◌, ◌≡◌, ◌≢◌, refl, [], ◌∷◌, List, none, some, arith}
use powerdns_improved_lua.Throttle.{Entry, clean, find, erase, assign}

module _ {Thing : Type 0} (dec : Discrete Thing) (t : Thing) where
  pub find-assign_self :
      (e : Entry) (cont : List (Thing × Entry)) → find dec t (assign dec t e cont) ≡ some e
  unfolding find assign
  find-assign_self e [] = ground arith
  find-assign_self e ((k, f) ∷ cont) = ground (arith, find-assign_self e cont)

  pub find-assign_ne :
      (q : Thing) (e : Entry) (cont : List (Thing × Entry))
      → q ≢ t
      → find dec q (assign dec t e cont) ≡ find dec q cont
  unfolding find assign
  find-assign_ne q e [] h = ground arith
  find-assign_ne q e ((k, f) ∷ cont) h = ground (arith, find-assign_ne q e cont)

  pub find-erase_self : (cont : List (Thing × Entry)) → find dec t (erase dec t cont) ≡ none
  unfolding find erase
  find-erase_self [] = refl
  find-erase_self ((k, f) ∷ cont) = ground (arith, find-erase_self cont)

  pub find-erase_ne :
      (q : Thing) (cont : List (Thing × Entry))
      → q ≢ t
      → find dec q (erase dec t cont) ≡ find dec q cont
  unfolding find erase
  find-erase_ne q [] h = refl
  find-erase_ne q ((k, f) ∷ cont) h = ground (arith, find-erase_ne q cont)

  -- What is not past its time stays.
  pub find-clean :
      (now : ℕ) (e : Entry) (cont : List (Thing × Entry))
      → find dec t cont ≡ some e
      → now ≤ e.ttd
      → find dec t (clean now cont) ≡ some e
  unfolding find clean
  find-clean now e [] h k = cc
  find-clean now e ((j, f) ∷ cont) h k = ground (arith, find-clean now e cont)

  pub find-clean-none :
      (now : ℕ) (cont : List (Thing × Entry))
      → find dec t cont ≡ none
      → find dec t (clean now cont) ≡ none
  unfolding find clean
  find-clean-none now [] h = refl
  find-clean-none now ((j, f) ∷ cont) h = ground (arith, find-clean-none now cont)
