-- ===== src/Hooks/Cache.antt =====
-- Which cached answers a mutation of portal/src/hooks makes react-query fetch again.
pub mod Refresh
mod Tests
use mutell_demo.Prelude.{
  String, Bool, true, false, ◌||◌, ◌&&◌, ◌≡◌, ◌≢◌, refl, List, [], ◌∷◌, ◌++◌, arith, str_eq, eq_iff,
  eq_refl,
}
use mutell_demo.Hooks.{
  QueryKey, KeyPart, text, object, absent, Effect, invalidate, notify, open_window,
}

-- react-query's test of a cached key against the key given to `invalidateQueries`, as it documents
-- it: a key that begins with the given one is matched, and one that begins with another text is
-- not.
pub record QueryClient : Type 0 where
  pub matches : QueryKey → QueryKey → Bool
  pub matches_prefix : (filter rest : QueryKey) → matches filter (filter ++ rest) ≡ true
  pub matches_other :
      (a b : String) (filter rest : QueryKey)
      → a ≢ b
      → matches (text a ∷ filter) (text b ∷ rest) ≡ false

-- Whether the effects of a mutation invalidate the answer cached under a key.
abbrev pub stales : QueryClient → List Effect → QueryKey → Bool
stales qc [] key = false
stales qc (invalidate filter ∷ es) key = qc.matches filter key || stales qc es key
stales qc (_ ∷ es) key = stales qc es key

-- A match by parts, any two objects counted as equal, has these laws.
abbrev pub part_matches : KeyPart → KeyPart → Bool
part_matches (text a) (text b) = str_eq a b
part_matches (object a) (object b) = true
part_matches absent absent = true
part_matches _ _ = false

abbrev pub by_parts : QueryKey → QueryKey → Bool
by_parts [] key = true
by_parts (p ∷ filter) [] = false
by_parts (p ∷ filter) (q ∷ key) = part_matches p q && by_parts filter key

part_matches_refl : (p : KeyPart) → part_matches p p ≡ true
part_matches_refl (text a) = eq_refl a
part_matches_refl (object a) = refl
part_matches_refl absent = refl

pub by_parts_prefix : (filter rest : QueryKey) → by_parts filter (filter ++ rest) ≡ true
by_parts_prefix [] rest = refl
by_parts_prefix (p ∷ filter) rest = ground (arith, part_matches_refl p, by_parts_prefix filter rest)

pub by_parts_other :
    (a b : String) (filter rest : QueryKey)
    → a ≢ b
    → by_parts (text a ∷ filter) (text b ∷ rest) ≡ false
by_parts_other a b filter rest h = ground (arith, eq_iff a b)

abbrev pub matching_by_parts : QueryClient
matching_by_parts = record {
  matches = by_parts;
  matches_prefix = by_parts_prefix;
  matches_other = by_parts_other;
}

module _ (qc : QueryClient) where
  -- A text that a key does not begin with.
  pub matches_ne :
      (a b : String) (filter rest : QueryKey)
      → str_eq a b ≡ false
      → qc.matches (text a ∷ filter) (text b ∷ rest) ≡ false
  matches_ne a b filter rest h = qc.matches_other a b filter rest (λ e. ground (arith, eq_iff a b))
