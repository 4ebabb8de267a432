-- ===== src/Tcp/Scale.antt =====
-- The handles of the routines that authenticate: which are running, and the bound of the array.
use gitee_fork_gateway.Prelude.{
  ℕ, zero, suc, ◌+◌, ◌/◌, ◌≤◌, ◌<◌, ◌≡◌, ◌∙◌, Bool, ◌||◌, ◌&&◌, leb, true, false, List, length, set,
  get_elem?, arith, ltb, length-set, Bool-cases, inl, inr, some, none, if◌then◌else◌,
  get_elem?-set_self, get_elem?-set_ne,
}
use gitee_fork_gateway.Tcp.{Routines, grow, retire, shrink, scale}

-- The flags of 100 handles, of which those below `n` are set.
abbrev pub FlagsBelow : ℕ → List Bool → Type 0
FlagsBelow n status =
    (length status ≡ 100)
    × ((k : ℕ) → get_elem? status k ≡ (if ltb k 100 then some (ltb k n) else none))

-- The handles below the next one run, and no others; the next one is in the array or just behind it.
pub record IsExact (r : Routines) : Type 0 where
  pub flags : FlagsBelow r.index r.chan_routine_status
  pub next : r.index ≤ 100

set-true :
    (status : List Bool) (n : ℕ)
    → n < 100
    → FlagsBelow n status
    → FlagsBelow (n + 1) (set status n true)
set-true status n lt f = (
  length-set status n true ∙ f.0,
  λ k.
      ground
        (arith, f.1 k, f.0, get_elem?-set_self status n true, get_elem?-set_ne status n k true),
)

grow-IsExact : (rounds : ℕ) (r : Routines) → IsExact r → IsExact (grow rounds r)
unfolding grow
grow-IsExact zero r b = b
grow-IsExact (suc rounds) r b = elim (Bool-cases (ltb r.index 100)) [
  | inl e ↦ rw e (
      grow-IsExact rounds _ (record {
        flags = set-true r.chan_routine_status r.index (ground arith) b.flags;
        next = ground arith;
      }))
  | inr e ↦ rw e b
]

-- In the middle of the loop: the handles from `k` on to `index` are still to be cleared.
abbrev Between : ℕ → ℕ → ℕ → List Bool → Type 0
Between n k index status =
    (length status ≡ 100)
    × ((j : ℕ)
        → get_elem? status j
          ≡ (if ltb j 100 then some (ltb j n || (leb k j && ltb j index)) else none))

retire-FlagsBelow :
    (rounds n k index : ℕ) (status : List Bool)
    → index ≤ 100
    → n ≤ k
    → index ≤ k + rounds
    → Between n k index status
    → FlagsBelow n (retire rounds k index status)
unfolding retire
retire-FlagsBelow zero n k index status le nk h b = (b.0, λ j. ground (arith, b.1 j))
retire-FlagsBelow (suc rounds) n k index status le nk h b =
    elim (Bool-cases (ltb k index && ltb k 100)) [
      | inl e ↦ rw e (
          retire-FlagsBelow rounds n (k + 1) index (set status k false) le (omega arith)
            (omega arith)
            (
              length-set status k false ∙ b.0,
              λ j. ground (
                arith,
                b.0,
                b.1 j,
                get_elem?-set_self status k false,
                get_elem?-set_ne status k j false,
              ),
            ))
      | inr e ↦ rw e (b.0, λ j. ground (arith, b.1 j))
    ]

shrink-IsExact : (num now later : ℕ) (r : Routines) → IsExact r → IsExact (shrink num now later r)
unfolding shrink
shrink-IsExact num now later r b = elim (Bool-cases (ltb (r.sample_time + 30) now)) [
  | inl due ↦ elim (Bool-cases (ltb (num + 1) r.index)) [
    | inl many ↦
        rw (due, many)
          (record {
            flags =
                retire-FlagsBelow r.index (num + 1) (num + 1) r.index r.chan_routine_status b.next
                  (omega arith) (omega arith) (b.flags.0, λ j. ground (arith, b.flags.1 j));
            next = ground arith;
          })
    | inr few ↦ rw (due, few) (record { flags = b.flags; next = b.next })
  ]
  | inr not_due ↦ rw not_due b
]

-- A round of `StartListen` keeps the flags exact: the routines' handles stay within the array, those
-- below the next handle are marked to run, and the others to stop.
pub scale-IsExact :
    (waiting now later : ℕ) (r : Routines) → IsExact r → IsExact (scale waiting now later r)
unfolding scale
scale-IsExact waiting now later r b = shrink-IsExact (waiting / 100) now later _ (
    grow-IsExact (waiting / 100) (record r { num = waiting / 100 })
      (record { flags = b.flags; next = b.next }))
