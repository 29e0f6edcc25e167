-- ===== src/Unavailable/Keys.antt =====
-- The cache keys of pkg/cache/unavailableofferings.go, which are texts joined by colons.
use karpenter_provider_azure.Prelude.{
  ℕ, ◌≡◌, refl, ap, ◌≢◌, true, List, [], ◌∷◌, ◌++◌, map, arith, Text, codes, is_empty, lower,
  to_lower, has_prefix, if◌then◌else◌, sym, ◌∙◌,
}

-- `fmt.Sprintf("%s:%s: …", …)`.
unfoldable pub join : List Text → Text
join [] = []
join (x ∷ []) = x
join (x ∷ y ∷ r) = x ++ b':' ∷ join (y ∷ r)

abbrev pub unreserved_scope : Text
unreserved_scope = []

unfoldable pub single_instance_key : Text → Text → Text → Text → Text
single_instance_key scope instance_type zone capacity_type =
    if is_empty scope
    then join (capacity_type ∷ instance_type ∷ zone ∷ [])
    else join (codes "crg" ∷ scope ∷ capacity_type ∷ instance_type ∷ zone ∷ [])

unfoldable pub vm_family_key : Text → Text → Text → Text → Text
vm_family_key scope sku_family_name zone capacity_type =
    if is_empty scope
    then to_lower (join (codes "skuFamily" ∷ sku_family_name ∷ zone ∷ capacity_type ∷ []))
    else to_lower (
        join
          (codes "crg" ∷ scope ∷ codes "skuFamily" ∷ sku_family_name ∷ zone ∷ capacity_type ∷ []))

unfoldable pub sku_zone_key : Text → Text → Text
sku_zone_key instance_type zone = join (codes "skuZone" ∷ instance_type ∷ zone ∷ [])

unfoldable pub capacity_reservation_group_scope : Text → Text
capacity_reservation_group_scope id = to_lower id

-- The prefix of the keys of one capacity reservation group, "crg:%s:".
unfoldable pub group_prefix : Text → Text
group_prefix scope = join (codes "crg" ∷ scope ∷ [] ∷ [])

-- No colon stands in the text.
abbrev pub ColonFree : Text → Type 0
ColonFree [] = Unit
ColonFree (c ∷ s) = (c ≢ b':') × ColonFree s

abbrev pub AllColonFree : List Text → Type 0
AllColonFree [] = Unit
AllColonFree (x ∷ xs) = ColonFree x × AllColonFree xs

-- What stands before the first colon, and what stands behind it, is determined.
pub split_at_colon :
    (a a' b b' : Text)
    → ColonFree a
    → ColonFree a'
    → a ++ b':' ∷ b ≡ a' ++ b':' ∷ b'
    → (a ≡ a') × (b ≡ b')
split_at_colon [] [] b b' f f' e = (refl, cc)
split_at_colon [] (c ∷ a') b b' f f' e = absurd (f'.0 (cc))
split_at_colon (c ∷ a) [] b b' f f' e = absurd (f.0 (cc))
split_at_colon (c ∷ a) (d ∷ a') b b' f f' e =
    let (p, q) = split_at_colon a a' b b' f.1 f'.1 (cc) in (cc, q)

-- A text without a colon is no text with one.
pub colon_in : (a a' b : Text) → ColonFree a → a ≡ a' ++ b':' ∷ b → ⊥
colon_in [] [] b f e = cc
colon_in [] (d ∷ a') b f e = cc
colon_in (c ∷ a) [] b f e = f.0 (cc)
colon_in (c ∷ a) (d ∷ a') b f e = colon_in a a' b f.1 (cc)

-- Joined keys of the same colon-free segments only are equal.
pub join-injective :
    (x : Text) (xs : List Text) (y : Text) (ys : List Text)
    → AllColonFree (x ∷ xs)
    → AllColonFree (y ∷ ys)
    → join (x ∷ xs) ≡ join (y ∷ ys)
    → x ∷ xs ≡ y ∷ ys
unfolding join
join-injective x [] y [] f g e = cc
join-injective x [] y (y' ∷ ys) f g e = absurd (colon_in x y (join (y' ∷ ys)) f.0 e)
join-injective x (x' ∷ xs) y [] f g e = absurd (colon_in y x (join (x' ∷ xs)) g.0 (sym e))
join-injective x (x' ∷ xs) y (y' ∷ ys) f g e =
    let (p, q) = split_at_colon x y (join (x' ∷ xs)) (join (y' ∷ ys)) f.0 g.0 e in
    cc (p, join-injective x' xs y' ys f.1 g.1 q)

lower-ne_colon : (c : ℕ) → c ≢ b':' → lower c ≢ b':'
unfolding lower
lower-ne_colon c h = ground arith

pub to_lower-ColonFree : (s : Text) → ColonFree s → ColonFree (to_lower s)
unfolding to_lower
to_lower-ColonFree [] f = tt
to_lower-ColonFree (c ∷ s) f = (lower-ne_colon c f.0, to_lower-ColonFree s f.1)

to_lower-append : (s t : Text) → to_lower (s ++ b':' ∷ t) ≡ to_lower s ++ b':' ∷ to_lower t
unfolding to_lower lower
to_lower-append [] t = refl
to_lower-append (c ∷ s) t = ap (◌∷◌ (lower c)) (to_lower-append s t)

-- Lower case goes through the segments.
pub to_lower-join : (xs : List Text) → to_lower (join xs) ≡ join (map to_lower xs)
unfolding join to_lower
to_lower-join [] = refl
to_lower-join (x ∷ []) = refl
to_lower-join (x ∷ y ∷ r) =
    to_lower-append x (join (y ∷ r)) ∙ ap (λ t. to_lower x ++ b':' ∷ t) (to_lower-join (y ∷ r))

pub map-to_lower-AllColonFree : (xs : List Text) → AllColonFree xs → AllColonFree (map to_lower xs)
map-to_lower-AllColonFree [] f = tt
map-to_lower-AllColonFree (x ∷ xs) f = (to_lower-ColonFree x f.0, map-to_lower-AllColonFree xs f.1)

-- `has_prefix` finds the rest.
pub has_prefix-rest : (s p : Text) → has_prefix s p ≡ true → (r : Text) × (s ≡ p ++ r)
unfolding has_prefix
has_prefix-rest s [] h = (s, refl)
has_prefix-rest [] (d ∷ p) h = cc
has_prefix-rest (c ∷ s) (d ∷ p) h =
    let (r, e) = has_prefix-rest s p (ground arith) in (r, ground arith)

pub has_prefix-append : (p r : Text) → has_prefix (p ++ r) p ≡ true
unfolding has_prefix
has_prefix-append [] r = refl
has_prefix-append (c ∷ p) r = ground (arith, has_prefix-append p r)
