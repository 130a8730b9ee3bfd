-- ===== src/Proxy/Paths/Wildcard.antt =====
-- The wildcard branch of `match_one`: the pieces of the pattern occur in the path in order.
use relaykey_backend.Base.{
  ℕ, ◌+◌, ◌≤◌, ◌≡◌, refl, ap, subst, ◌∙◌, ◌↔◌, inl, inr, true, List, [], ◌∷◌, ◌++◌, append_assoc,
  some, not, arith, length, length-append, drop, take, drop-add, drop-append_le, keep, Option-cases,
  Bool-cases, ◌==◌,
}
use relaykey_backend.Text.{Text, find, split, push_front, is_empty}
use relaykey_backend.Text.Pieces.{find_sound, find-append}
use relaykey_backend.Proxy.Paths.{pieces, pieces_from}

-- The parts occur one behind another, with anything between them.
pub data InOrder : List Text → Text → Type 0 where
  done : {s : Text} → InOrder [] s
  next :
      {part : Text} {parts : List Text} {s : Text} (gap rest : Text)
      → s ≡ gap ++ part ++ rest
      → InOrder parts rest
      → InOrder (part ∷ parts) s

pub InOrder-append :
    (gap : Text) {parts : List Text} {s : Text} → InOrder parts s → InOrder parts (gap ++ s)
InOrder-append gap done = done
InOrder-append gap (next {part} g rest e more) =
    next (gap ++ g) rest (rw e (simp append_assoc)) more

-- The search that takes the first hit of each part finds an order whenever there is one.
pieces_from_sound :
    (parts : List Text) (path : Text) (idx : ℕ)
    → pieces_from parts path idx ≡ true
    → InOrder parts (drop idx path)
unfolding pieces_from
pieces_from_sound [] path idx h = done
pieces_from_sound (part ∷ parts) path idx h = elim (Option-cases (find part (drop idx path))) [
  | inl missed ↦ absurd (ground arith)
  | inr (pos, found) ↦
      next (take pos (drop idx path)) (drop (length part) (drop pos (drop idx path)))
        (find_sound part (drop idx path) pos found)
        (subst (InOrder parts)
          (drop-add idx (pos + length part) path ∙ drop-add pos (length part) (drop idx path))
          (pieces_from_sound parts path (idx + (pos + length part)) (ground arith)))
]

-- A hit that is not after `gap` leaves all of `rest` to the search.
after_hit :
    (gap part rest : Text) (pos : ℕ)
    → pos ≤ length gap
    → (more : Text) × (drop (pos + length part) (gap ++ part ++ rest) ≡ more ++ rest)
after_hit gap part rest pos h = (
  drop (pos + length part) (gap ++ part),
  drop-append_le (pos + length part) (gap ++ part) rest (omega (arith, length-append {0} gap part)),
)

pieces_from_complete :
    (parts : List Text) (path : Text) (idx : ℕ)
    → InOrder parts (drop idx path)
    → pieces_from parts path idx ≡ true
unfolding pieces_from
pieces_from_complete [] path idx h = refl
pieces_from_complete (part ∷ parts) path idx (next gap rest e more) =
    let (pos, found, near) = find-append part gap rest in
    let (skipped, left) = after_hit gap part rest pos near in
    let here : find part (drop idx path) ≡ some pos = rw e found in
    rw (here, pieces_from)
      (pieces_from_complete parts path (idx + (pos + length part))
        (rw (drop-add idx (pos + length part) path, e, left) (InOrder-append skipped more)))

-- The loop over the pieces succeeds exactly when they occur in the path in order.
pub pieces_from_iff :
    (parts : List Text) (path : Text) → (pieces_from parts path 0 ≡ true) ↔ InOrder parts path
pieces_from_iff parts path = (pieces_from_sound parts path 0, pieces_from_complete parts path 0)

abbrev nonempty : List Text → List Text
nonempty = keep (λ s. not (is_empty s))

from_head :
    (part : Text) (parts : List Text) (rest s : Text)
    → s ≡ part ++ rest
    → InOrder (nonempty parts) rest
    → InOrder (nonempty (part ∷ parts)) s
unfolding is_empty
from_head [] parts rest s e more = rw e more
from_head (c ∷ part) parts rest s e more = next [] rest e more

-- `split` is never empty: its first part opens the text, and the other parts follow it.
split_head :
    (c : ℕ) (s : Text)
    → (part : Text) × (parts : List Text) × (rest : Text) × (split c s ≡ part ∷ parts)
      × (s ≡ part ++ rest)
      × InOrder (nonempty parts) rest
unfolding split push_front is_empty
split_head c [] = ([], [], [], refl, refl, done)
split_head c (d ∷ s) =
    let (part, parts, rest, e, f, more) = split_head c s in
    elim (Bool-cases (d == c)) [
      | inl hit ↦ (
        [],
        split c s,
        d ∷ s,
        ground arith,
        refl,
        rw e (InOrder-append (d ∷ []) (from_head part parts rest s f more)),
      )
      | inr miss ↦ (d ∷ part, parts, rest, rw (miss, e), ap (λ (r : Text). d ∷ r) f, more)
    ]

-- A pattern's own pieces occur in it.
pub InOrder-pieces : (s : Text) → InOrder (pieces s) s
unfolding pieces
InOrder-pieces s =
    let (part, parts, rest, e, f, more) = split_head b'*' s in
    rw e (from_head part parts rest s f more)
