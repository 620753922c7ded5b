-- ===== src/Acl/Prefixes.antt =====
-- A grant covers a subtree of the namespaces, by whole path segments.
use mathlib.Core.List.{append_assoc}
use mathlib.Core.Path.{ap₂}
use sightingdb.Acl.{Grant, covers, walk}
use sightingdb.Common.{
  Bool-cases, List, [], ap, arith, inl, inr, refl, true, ◌++◌, ◌↔◌, ◌∙◌, ◌∷◌, ◌≡◌,
}
use sightingdb.Order.{Text, text_eq, text_eq_iff}
use sightingdb.Text.{segments}
use sightingdb.Text.Split.{segments-append}

walk_sound : (ws ss : List Text) → walk ws ss ≡ true → (rest : List Text) × (ss ≡ ws ++ rest)
unfolding walk
walk_sound [] ss h = (ss, refl)
walk_sound (w ∷ ws) [] h = absurd (ground arith)
walk_sound (w ∷ ws) (s ∷ ss) h = elim (Bool-cases (text_eq s w)) [
  | inl e ↦
      let (rest, p) = walk_sound ws ss (ground arith) in (rest, ap₂ ◌∷◌ ((text_eq_iff s w).0 e) p)
  | inr e ↦ absurd (ground arith)
]

walk_complete : (ws rest : List Text) → walk ws (ws ++ rest) ≡ true
unfolding walk
walk_complete [] rest = refl
walk_complete (w ∷ ws) rest = rw ((text_eq_iff w w).1 refl) (walk_complete ws rest)

-- A grant covers a namespace exactly when the segments of its prefix are the first segments of the
-- namespace, whatever slashes either is written with.
pub covers_iff :
    (g : Grant) (namespace : Text)
    → (covers g namespace ≡ true)
      ↔ ((rest : List Text) × (segments namespace ≡ segments g.prefix ++ rest))
unfolding covers
covers_iff g namespace = (
  walk_sound (segments g.prefix) (segments namespace),
  λ (rest, p). rw p (walk_complete (segments g.prefix) rest),
)

-- A grant that covers a namespace covers every namespace below it.
pub covers_below :
    (g : Grant) (namespace below : Text)
    → covers g namespace ≡ true
    → covers g (namespace ++ (b'/' ∷ below)) ≡ true
covers_below g namespace below h =
    let (rest, p) = (covers_iff g namespace).0 h in
    (covers_iff g (namespace ++ (b'/' ∷ below))).1 (
      rest ++ segments below,
      segments-append namespace below
          ∙ ap (λ ss. ss ++ segments below) p
          ∙ append_assoc (segments g.prefix) rest (segments below),
    )
