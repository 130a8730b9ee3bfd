-- ===== src/Admin/Usage/Entries.antt =====
-- The map of payment counters: its keys, and an entry after an addition.
use relaykey_backend.Base.{
  ℕ, true, ◌≡◌, ◌↔◌, refl, ap, sym, ◌∙◌, List, [], ◌∷◌, if◌then◌else◌, arith, Bool-cases, not-both,
  inl, inr, false,
}
use relaykey_backend.Text.{Text}
use relaykey_backend.Text.Laws.{text_eq_iff}
use relaykey_backend.Db.{UsageKey, X402Columns}
use relaykey_backend.Db.Rollups.Keys.{usage_same}
use relaykey_backend.Admin.Usage.{
  X402Counts, MapKey, map_key_eq, add_counts, add_entry, get_counts, map_key,
}

map_key_eq_iff : (a b : MapKey) → (map_key_eq a b ≡ true) ↔ (a ≡ b)
unfolding map_key_eq
map_key_eq_iff a b =
    let ext : a.day ≡ b.day
        → a.customer_id ≡ b.customer_id
        → a.virtual_key_id ≡ b.virtual_key_id
        → a.partner_name ≡ b.partner_name
        → a ≡ b =
      λ p q r s.
        λ i. record { day = p i; customer_id = q i; virtual_key_id = r i; partner_name = s i } in
    ground (arith, text_eq_iff a.day b.day, text_eq_iff a.partner_name b.partner_name, ext)

module _ (date_text : ℕ → Text) (injective : (a b : ℕ) → date_text a ≡ date_text b → a ≡ b) where
  pub map_key_eq-map_key :
      (a b : UsageKey) → map_key_eq (map_key date_text a) (map_key date_text b) ≡ usage_same a b
  unfolding map_key_eq map_key usage_same
  map_key_eq-map_key a b = ground (
    arith,
    text_eq_iff (date_text a.day) (date_text b.day),
    injective a.day b.day,
    ap date_text {x = a.day} {y = b.day},
  )

map_key_eq-same :
    (k key asked : MapKey) → map_key_eq k key ≡ true → map_key_eq k asked ≡ map_key_eq key asked
map_key_eq-same k key asked h = ap (λ x. map_key_eq x asked) ((map_key_eq_iff k key).0 h)

map_key_eq-apart :
    (k key asked : MapKey)
    → map_key_eq k key ≡ false
    → map_key_eq k asked ≡ true
    → map_key_eq key asked ≡ false
map_key_eq-apart k key asked h g = elim (Bool-cases (map_key_eq key asked)) [
  | inl e ↦ absurd (
      not-both (map_key_eq k key)
        ((map_key_eq_iff k key).1
          ((map_key_eq_iff k asked).0 g ∙ sym ((map_key_eq_iff key asked).0 e)))
        h)
  | inr e ↦ e
]

pub get_counts-add_entry :
    (key asked : MapKey) (r : X402Columns) (entries : List (MapKey × X402Counts))
    → get_counts asked (add_entry key r entries) ≡ (
        if map_key_eq key asked
        then add_counts (get_counts asked entries) r
        else get_counts asked entries)
unfolding get_counts add_entry
get_counts-add_entry key asked r [] = refl
get_counts-add_entry key asked r ((k, entry) ∷ entries) =
    let rest = get_counts-add_entry key asked r entries in
    elim (Bool-cases (map_key_eq k key)) [
      | inl h ↦
          let same = map_key_eq-same k key asked h in
          elim (Bool-cases (map_key_eq key asked)) [
            | inl g ↦ rw (h, same, g) refl
            | inr g ↦ rw (h, same, g) refl
          ]
      | inr h ↦ elim (Bool-cases (map_key_eq k asked)) [
        | inl g ↦ rw (h, g, map_key_eq-apart k key asked h g) refl
        | inr g ↦ rw (h, g) rest
      ]
    ]
