-- ===== src/Machine/Fingerprint/Machine.antt =====
-- What two machines with one fingerprint share, and which machines share one (machine/machine.go).
use spin_machine.Common.{
  ℕ, Text, lit, ◌≡◌, ◌≢◌, text_eq, ne_of_text_eq, refl, ap, List, [], ◌∷◌, ◌++◌, arith, Lacks, All,
  Bool, true, false,
}
use spin_machine.Common.Numeral.{decimal_injective}
use spin_machine.Machine.Types.{Spec}
use spin_machine.Machine.Shape.{shape}
use spin_machine.Machine.Contract.{contract}
use spin_machine.Machine.Fingerprint.{
  Entry, contract_entries, host_entries, stream, entries, shows_host,
}
use spin_machine.Machine.Fingerprint.Stream.{cons_injective, stream_injective}

abbrev IsKey : Entry → Type 0
IsKey e = Lacks b'=' e.0

contracts-IsKey :
    (cs : List Text) (rest : List Entry) → All IsKey rest → All IsKey (contract_entries cs ++ rest)
unfolding lit
contracts-IsKey [] rest h = h
contracts-IsKey (c ∷ cs) rest h = (omega arith, contracts-IsKey cs rest h)

host-IsKey : (b : Bool) (host : Text) → All IsKey (host_entries b host)
unfolding lit
host-IsKey true host = omega arith
host-IsKey false host = tt

entries-IsKey : (s : Spec) (n : ℕ) (host : Text) → All IsKey (entries s n host)
unfolding entries lit
entries-IsKey s n host = (
  omega arith,
  (
    omega arith,
    (
      omega arith,
      (
        omega arith,
        (
          omega arith,
          (omega arith, contracts-IsKey (contract s) _ (host-IsKey (shows_host s) host)),
        ),
      ),
    ),
  ),
)

host-ne-contract : lit "host-cpu" ≢ lit "contract"
unfolding lit text_eq
host-ne-contract = ne_of_text_eq _ _ refl

contracts_injective :
    (cs ds : List Text) (b b' : Bool) (h h' : Text)
    → contract_entries cs ++ host_entries b h ≡ contract_entries ds ++ host_entries b' h'
    → (cs ≡ ds) × (b ≡ b') × (b ≡ true → h ≡ h')
contracts_injective [] [] true true h h' e = (refl, refl, λ _. cc)
contracts_injective [] [] true false h h' e = cc
contracts_injective [] [] false true h h' e = cc
contracts_injective [] [] false false h h' e = (refl, refl, λ p. cc)
contracts_injective [] (d ∷ ds) true b' h h' e = absurd (host-ne-contract (cc))
contracts_injective [] (d ∷ ds) false b' h h' e = cc
contracts_injective (c ∷ cs) [] b true h h' e = absurd (host-ne-contract (cc))
contracts_injective (c ∷ cs) [] b false h h' e = cc
contracts_injective (c ∷ cs) (d ∷ ds) b b' h h' e =
    let r = contracts_injective cs ds b b' h h' (cc) in (cc (r.0), r.1, r.2)

-- Two machines whose hashed streams are equal have a BIOS of one size, one shape, one contract, and
-- one host CPU if they show it: no value of one can be read as another's.
pub entries_injective :
    (s t : Spec) (m n : ℕ) (h h' : Text)
    → stream (entries s m h) ≡ stream (entries t n h')
    → (m ≡ n)
      × (shape s ≡ shape t)
      × (contract s ≡ contract t)
      × (shows_host s ≡ shows_host t)
      × (shows_host s ≡ true → h ≡ h')
unfolding entries
entries_injective s t m n h h' e =
    let same = stream_injective _ _ (entries-IsKey s m h) (entries-IsKey t n h') e in
    let (size, r) = cons_injective same in
    let (machine, r') = cons_injective r in
    let (accel, r'') = cons_injective r' in
    let (cpu, r₃) = cons_injective r'' in
    let (smp, r₄) = cons_injective r₃ in
    let (memory, r₅) = cons_injective r₄ in
    let (same_contract, same_shown, same_host) = contracts_injective _ _ _ _ _ _ r₅ in
    (
      decimal_injective m n (ap (λ (e : Entry). e.1) size),
      λ i. record {
        machine = (machine i).1;
        accel = (accel i).1;
        cpu = (cpu i).1;
        smp = (smp i).1;
        memory = (memory i).1;
      },
      same_contract,
      same_shown,
      same_host,
    )
