-- ===== src/WebUi/Distribution/Once.antt =====
-- internal/webui/distribution.go: who is asked to start, and how often.
use go_silver_core.Prelude.Maps.{get, get-put}
use go_silver_core.Prelude.Text.{str_dec}
use go_silver_core.Prelude.{
  ℕ, ◌+◌, ◌≤◌, ◌≡◌, ◌⊎◌, refl, sym, ap, ◌∙◌, Bool, true, false, not, ◌&&◌, ◌||◌, Option, none, some,
  List, [], ◌∷◌, ◌++◌, Str, All, if◌then◌else◌, is_some, any, Bool-cases, Option-cases, inl, inr,
  arith,
}
use go_silver_core.Folders.{same}
use go_silver_core.WebUi.{PeerState}
use go_silver_core.WebUi.Peers.{Peers}
use go_silver_core.WebUi.Dispatch.{Known}
use go_silver_core.WebUi.Distribution.{
  Round, stored, contacted, Distributed, store_contact, contact_all, asks_start, starts_of,
  distribute,
}

-- How often a peer is named.
abbrev pub times_named : Str → List Str → ℕ
times_named id [] = 0
times_named id (x ∷ xs) = (if same x id then 1 else 0) + times_named id xs

-- A snapshot names a peer once: it lists a map.
abbrev pub listed : Str → List Known → Bool
listed id [] = false
listed id (k ∷ ks) = same k.uuid id || listed id ks

abbrev pub AreDistinct : List Known → Type 0
AreDistinct [] = Unit {0}
AreDistinct (k ∷ ks) = (listed k.uuid ks ≡ false) × AreDistinct ks

times_named-append :
    (id : Str) (xs ys : List Str)
    → times_named id (xs ++ ys) ≡ times_named id xs + times_named id ys
times_named-append id [] ys = omega arith
times_named-append id (x ∷ xs) ys = omega (arith, times_named-append id xs ys)

abbrev pub known : Str → Peers → Bool
known id ps = is_some (get str_dec id ps)

asks_start-new :
    (r : Round) (k : Known) (previous : Peers)
    → asks_start r k previous ≡ true
    → known k.uuid previous ≡ false
asks_start-new r k previous h = ground arith

asks_start-contacted :
    (spec_id : Str) (r : Round) (k : Known) (previous : Peers)
    → asks_start r k previous ≡ true
    → is_some (contacted spec_id r k previous) ≡ true
asks_start-contacted spec_id r k previous h = ground arith

module _ (id : Str) (r : Round) (previous : Peers) where
  known-store_contact :
      (j : Str) (c : Option PeerState) (s : Distributed)
      → known id (store_contact r j c s).members
        ≡ (known id s.members || same j id && is_some c && stored r.ended j)
  known-store_contact j none s = ground arith
  known-store_contact j (some p) s = ground (arith, get-put str_dec j id p s.members)

  unlisted : (ks : List Known) → listed id ks ≡ false → times_named id (starts_of r previous ks) ≡ 0
  unlisted [] h = refl
  unlisted (k ∷ ks) h = ground (arith, unlisted ks)

  members_stay :
      (spec_id : Str) (ks : List Known) (s : Distributed)
      → known id s.members ≡ true
      → known id (contact_all spec_id r previous ks s).members ≡ true
  members_stay spec_id [] s h = h
  members_stay spec_id (k ∷ ks) s h =
      members_stay spec_id ks (store_contact r k.uuid (contacted spec_id r k previous) s)
        (ground (arith, known-store_contact k.uuid (contacted spec_id r k previous) s))

  kept_or_ended :
      (spec_id : Str) (k : Known) (ks : List Known) (s : Distributed)
      → same k.uuid id ≡ true
      → asks_start r k previous ≡ true
      → (known id
            (contact_all spec_id r previous ks
              (store_contact r k.uuid (contacted spec_id r k previous) s)).members
          || is_some r.ended)
        ≡ true
  kept_or_ended spec_id k ks s this asked = elim (Option-cases r.ended) [
    | inr (f, e) ↦ ground (arith, e)
    | inl e ↦
        let c = contacted spec_id r k previous in
        ap (◌|| is_some r.ended) (
          members_stay spec_id ks (store_contact r k.uuid c s) (
            known-store_contact k.uuid c s
            ∙ ground (arith, this, e, asks_start-contacted spec_id r k previous asked)))
  ]

  -- Whoever is asked to start was new, and is a member behind a round that is not broken off.
  starts_of-known :
      (spec_id : Str) (ks : List Known) (s : Distributed)
      → AreDistinct ks
      → (times_named id (starts_of r previous ks)
          ≤ (if known id previous || not r.accepting then 0 else 1))
        × ((times_named id (starts_of r previous ks) ≡ 0)
            ⊎ ((known id (contact_all spec_id r previous ks s).members || is_some r.ended) ≡ true))
  starts_of-known spec_id [] s a = (ground arith, inl refl)
  starts_of-known spec_id (k ∷ ks) s a =
      let c = contacted spec_id r k previous in
      let t = store_contact r k.uuid c s in
      let (few, kept) = starts_of-known spec_id ks t a.1 in
      elim (Bool-cases (asks_start r k previous)) [
        | inr other ↦ (ground (arith, other, few), ground (arith, other, kept))
        | inl asked ↦ elim (Bool-cases (same k.uuid id)) [
          | inr other ↦ (ground (arith, asked, other, few), ground (arith, asked, other, kept))
          | inl this ↦
              let here : k.uuid ≡ id = ground (arith, this) in
              let alone = unlisted ks (ap (λ x. listed x ks) (sym here) ∙ a.0) in
              let fresh : known id previous ≡ false =
                ap (λ x. known x previous) (sym here) ∙ asks_start-new r k previous asked in
              (
                ground (arith, asked, this, alone, fresh),
                inr (kept_or_ended spec_id k ks s this asked),
              )
        ]
      ]

stays :
    (id : Str) (r : Round) (spec_id : Str) (s : Distributed)
    → known id s.members ≡ true
    → known id (contact_all spec_id r s.members r.snapshot s).members ≡ true
stays id r spec_id s h = members_stay id r s.members spec_id r.snapshot s h

-- Rounds in which each snapshot names a peer once.
abbrev pub AreRounds : List Round → Type 0
AreRounds rs = All (λ r. AreDistinct r.snapshot) rs

-- However the receivers come and go and answer, a distribution asks each of them to start at most
-- once in all its rounds; it asks none that was a member already, and none at all if it accepts none
-- in any round.
pub distribute-once :
    (spec_id id : Str) (rs : List Round) (s : Distributed)
    → AreRounds rs
    → times_named id (distribute spec_id rs s).0
      ≤ (if known id s.members || not (any (λ r. r.accepting) rs) then 0 else 1)
unfolding distribute
distribute-once spec_id id [] s a = omega arith
distribute-once spec_id id (r ∷ rs) s a =
    let t = contact_all spec_id r s.members r.snapshot s in
    let now = starts_of r s.members r.snapshot in
    let (few, kept) = starts_of-known id r s.members spec_id r.snapshot s a.0 in
    elim (Option-cases r.ended) [
      | inr (f, e) ↦ ground (arith, e, few)
      | inl e ↦ ground (
        arith,
        e,
        few,
        kept,
        stays id r spec_id s,
        distribute-once spec_id id rs t a.1,
        times_named-append id now (distribute spec_id rs t).0,
      )
    ]
