-- ===== src/Pinned/Offered.antt =====
-- What `Check` of hack/machinetype/main.go says of the machine types that a QEMU offers.
use mathlib.Core.List.{Memᴰ}
use spin_machine.Common.{
  ◌≡◌, ◌≢◌, ◌⊎◌, Text, Bool, true, false, List, [], ◌∷◌, Option, none, some, Result, ok, err, All,
}
use spin_machine.Release.Trim.{trim_space}
use spin_machine.Pinned.Versions.{Version, newer, Offer, offered}
use spin_machine.Pinned.{CheckError, not_versioned, deprecates, not_offered, notice}

-- The versioned q35 machine types of the lines.
abbrev with_offer : Option Offer → List Offer → List Offer
with_offer none os = os
with_offer (some o) os = o ∷ os

unfoldable pub offers : List Text → List Offer
offers [] = []
offers (line ∷ lines) = with_offer (offered (trim_space line)) (offers lines)

module _ (pinned : Text) (want : Version) where
  -- The pinned machine type among the offers, deprecated or not.
  abbrev pub IsOffered : List Offer → Bool → Type 0
  IsOffered os d = (o : Offer) × Memᴰ o os × (o.version ≡ want) × (o.deprecated ≡ d)

  -- The version at which the loop ends.
  abbrev IsNewest : Version → List Offer → Version → Type 0
  IsNewest from os v =
      (newer from v ≡ false)
      × All (λ (o : Offer). newer o.version v ≡ false) os
      × ((v ≡ from) ⊎ ((o : Offer) × Memᴰ o os × (o.version ≡ v)))

  -- An offer that is not the pinned machine type, or not deprecated.
  abbrev pub IsSound : Offer → Type 0
  IsSound o = (o.version ≢ want) ⊎ (o.deprecated ≡ false)

  -- How the loop ends.
  abbrev Ends : Version → Bool → List Offer → Result CheckError (Version × Bool) → Type 0
  Ends newest found os (err e) = (e ≡ deprecates pinned) × IsOffered os true
  Ends newest found os (ok (v, true)) =
      IsNewest newest os v × All IsSound os × ((found ≡ true) ⊎ IsOffered os false)
  Ends newest found os (ok (v, false)) =
      IsNewest newest os v × All (λ (o : Offer). o.version ≢ want) os × (found ≡ false)

  -- A notice: none where nothing newer is offered, or one of the newest version.
  abbrev pub IsNotice : List Offer → Text → Type 0
  IsNotice os n =
      ((n ≡ []) × All (λ (o : Offer). newer o.version want ≡ false) os)
      ⊎ ((o : Offer) × Memᴰ o os
          × (newer o.version want ≡ true)
          × All (λ (x : Offer). newer x.version o.version ≡ false) os
          × (n ≡ notice o.version pinned))

  -- What each answer says of the offers.
  abbrev pub Says : List Offer → Result CheckError Text → Type 0
  Says os (err (not_versioned name)) = ⊥
  Says os (err (deprecates name)) = (name ≡ pinned) × IsOffered os true
  Says os (err (not_offered name)) = (name ≡ pinned) × All (λ (o : Offer). o.version ≢ want) os
  Says os (ok n) = IsOffered os false × All IsSound os × IsNotice os n

-- What the answer says, by the version that the name is of.
abbrev pub Answers : Text → List Offer → Option Version → Result CheckError Text → Type 0
Answers pinned os none answer = answer ≡ err (not_versioned pinned)
Answers pinned os (some want) answer = Says pinned want os answer
