-- ===== src/Mem/FaultLog.antt =====
-- `class FaultLog` of dc_memory.h and its functions in dc_memory.cpp. The hash map is an
-- association list, oldest entry first; the 64-bit counters are numbers.
use dream_recomp.Base.{
  ℕ, ◌+◌, ◌*◌, ◌^◌, ◌≤◌, ◌<◌, ◌≡◌, ◌⊎◌, refl, sym, ◌∙◌, ap, arith, bit_or, Bool, true, false, bit,
  ◌==◌, leb, if◌then◌else◌, List, [], ◌∷◌, ◌++◌, length, length-append,
}
use dream_recomp.Base.Bits.{bit_or_fields}

pub record FaultRecord : Type 0 where
  pub addr : ℕ
  pub size : ℕ
  pub is_write : Bool
  pub count : ℕ

pub record FaultLog : Type 0 where
  pub map : List (ℕ × FaultRecord)
  pub total : ℕ
  pub dropped : ℕ

abbrev pub max_unique : ℕ
max_unique = 4096

unfoldable pub init : FaultLog
init = record { map = []; total = 0; dropped = 0 }

unfoldable pub key : ℕ → ℕ → Bool → ℕ
key addr size is_write = bit_or (bit_or (addr * 2 ^ 8) (size * 2)) (bit is_write)

pub contains : ℕ → List (ℕ × FaultRecord) → Bool
contains k [] = false
contains k ((j, r) ∷ m) = if j == k then true else contains k m

-- `++it->second.count`.
pub count_up : ℕ → List (ℕ × FaultRecord) → List (ℕ × FaultRecord)
count_up k [] = []
count_up k ((j, r) ∷ m) =
    if j == k then (j, record r { count = r.count + 1 }) ∷ m else (j, r) ∷ count_up k m

pub record_fault : FaultLog → ℕ → ℕ → Bool → FaultLog
record_fault log addr size is_write =
    let k = key addr size is_write in
    let r : FaultRecord = record { addr = addr; size = size; is_write = is_write; count = 1 } in
    if contains k log.map
    then record log { total = log.total + 1; map = count_up k log.map }
    else if leb max_unique (length log.map)
    then record log { total = log.total + 1; dropped = log.dropped + 1 }
    else record log { total = log.total + 1; map = log.map ++ (k, r) ∷ [] }

pub clear : FaultLog → FaultLog
clear log = record { map = []; total = 0; dropped = 0 }

-- How often the entry under a key was counted.
unfoldable pub count_of : ℕ → List (ℕ × FaultRecord) → ℕ
count_of k [] = 0
count_of k ((j, r) ∷ m) = if j == k then r.count else count_of k m

pub counted : List (ℕ × FaultRecord) → ℕ
counted [] = 0
counted ((j, r) ∷ m) = r.count + counted m

bit-lt-two : (b : Bool) → bit b < 2
bit-lt-two true = omega arith
bit-lt-two false = omega arith

-- Every fault is accounted for, and the log stays within its limit.
pub record IsSound (log : FaultLog) : Type 0 where
  pub bounded : length log.map ≤ max_unique
  pub accounted : log.total ≡ counted log.map + log.dropped

length-count_up : (k : ℕ) (m : List (ℕ × FaultRecord)) → length (count_up k m) ≡ length m
unfolding count_up
length-count_up k [] = refl
length-count_up k ((j, r) ∷ m) = ground (arith, length-count_up k m)

counted-count_up :
    (k : ℕ) (m : List (ℕ × FaultRecord))
    → contains k m ≡ true
    → counted (count_up k m) ≡ counted m + 1
unfolding count_up counted contains
counted-count_up k [] h = cc
counted-count_up k ((j, r) ∷ m) h = ground (arith, counted-count_up k m)

counted-append :
    (m : List (ℕ × FaultRecord)) (k : ℕ) (r : FaultRecord)
    → counted (m ++ (k, r) ∷ []) ≡ counted m + r.count
unfolding counted
counted-append [] k r = omega arith
counted-append ((j, q) ∷ m) k r = omega (arith, counted-append m k r)

pub init-IsSound : IsSound init
unfolding init counted
init-IsSound = record { bounded = omega arith; accounted = refl }

-- In a log that accounts for every fault and holds at most 4096 entries, recording one keeps
-- both true and raises the total by one.
pub record_fault-IsSound :
    (log : FaultLog) (addr size : ℕ) (is_write : Bool)
    → IsSound log
    → IsSound (record_fault log addr size is_write)
      × ((record_fault log addr size is_write).total ≡ log.total + 1)
unfolding record_fault
record_fault-IsSound log addr size is_write v = ground (
  arith,
  length-count_up (key addr size is_write) log.map,
  counted-count_up (key addr size is_write) log.map,
  counted-append log.map (key addr size is_write)
      (record { addr = addr; size = size; is_write = is_write; count = 1 }),
  length-append log.map (
      (key addr size is_write, record { addr = addr; size = size; is_write = is_write; count = 1 })
      ∷ []),
)

count_of-count_up :
    (k i : ℕ) (m : List (ℕ × FaultRecord))
    → contains k m ≡ true
    → count_of i (count_up k m) ≡ (if k == i then count_of i m + 1 else count_of i m)
unfolding count_of count_up contains
count_of-count_up k i [] h = cc
count_of-count_up k i ((j, r) ∷ m) h = ground (arith, count_of-count_up k i m)

count_of_absent : (k : ℕ) (m : List (ℕ × FaultRecord)) → contains k m ≡ false → count_of k m ≡ 0
unfolding count_of contains
count_of_absent k [] h = refl
count_of_absent k ((j, r) ∷ m) h = ground (arith, count_of_absent k m)

count_of-append :
    (k i : ℕ) (r : FaultRecord) (m : List (ℕ × FaultRecord))
    → contains k m ≡ false
    → count_of i (m ++ (k, r) ∷ []) ≡ (if k == i then r.count else count_of i m)
unfolding count_of contains
count_of-append k i r [] h = refl
count_of-append k i r ((j, q) ∷ m) h = ground (arith, count_of-append k i r m)

-- While there is room, or where the fault is known, its entry counts one more and no other entry
-- changes.
pub record_fault-count_of :
    (log : FaultLog) (addr size : ℕ) (is_write : Bool) (i : ℕ)
    → (length log.map < max_unique) ⊎ (contains (key addr size is_write) log.map ≡ true)
    → count_of i (record_fault log addr size is_write).map
      ≡ (if key addr size is_write == i then count_of i log.map + 1 else count_of i log.map)
unfolding record_fault
record_fault-count_of log addr size is_write i h = ground (
  arith,
  count_of-count_up (key addr size is_write) i log.map,
  count_of-append (key addr size is_write) i
      (record { addr = addr; size = size; is_write = is_write; count = 1 }) log.map,
  count_of_absent (key addr size is_write) log.map,
)

key_sum : (a s : ℕ) (w : Bool) → s < 128 → key a s w ≡ a * 256 + s * 2 + bit w
unfolding key
key_sum a s w h = rw (bit_or_fields 8 a (s * 2) (omega arith)) (
    omega (
      arith,
      ap (λ (t : ℕ). bit_or t (bit w)) (even a s),
      bit_or_fields 1 (a * 128 + s) (bit w) (bit-lt-two w),
    ))
  where
    even : (a s : ℕ) → a * 2 ^ 8 + s * 2 ≡ (a * 128 + s) * 2 ^ 1
    even a s = omega arith

same_fields :
    (a b s t : ℕ) (w v : Bool)
    → s < 128
    → t < 128
    → a * 256 + s * 2 + bit w ≡ b * 256 + t * 2 + bit v
    → (a ≡ b) × (s ≡ t) × (w ≡ v)
same_fields a b s t w v hs ht e = ground arith

-- Faults of sizes below 128 that differ in address, size or direction have different keys, so no
-- two share an entry.
pub key-injective :
    (a b s t : ℕ) (w v : Bool)
    → s < 128
    → t < 128
    → key a s w ≡ key b t v
    → (a ≡ b) × (s ≡ t) × (w ≡ v)
unfolding key
key-injective a b s t w v hs ht e =
    same_fields a b s t w v hs ht (sym (key_sum a s w hs) ∙ e ∙ key_sum b t v ht)
