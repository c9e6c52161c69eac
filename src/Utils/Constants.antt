-- ===== src/Utils/Constants.antt =====
-- packages/utils/src/constants.ts and calculate-fee.ts: the constants that the modelled code reads.
-- Amounts are in the smallest unit, of which one GNY has 100000000.
use gny.Prelude.{
  ℕ, ◌*◌, ◌&&◌, ◌||◌, Option, none, some, List, [], ◌∷◌, leb, if◌then◌else◌, ◌==◌, nat_eq,
  string_eq,
}

abbrev pub max_payload_length : ℕ
max_payload_length = 8 * 1024 * 1024

abbrev pub max_txs_per_block : ℕ
max_txs_per_block = 20000

abbrev pub interval : ℕ
interval = 10

abbrev pub delegates_count : ℕ
delegates_count = 101

-- `Date.UTC(2018, 10, 18, 20, 0, 0, 0)`, in milliseconds.
abbrev pub epoch_time : ℕ
epoch_time = 1542571200000

-- `REWARDS`
abbrev pub milestones : List ℕ
milestones = 200000000 ∷ 150000000 ∷ 100000000 ∷ 50000000 ∷ []

abbrev pub offset : ℕ
offset = 2160

abbrev pub distance : ℕ
distance = 3000000

abbrev pub initial_amount : ℕ
initial_amount = 40000000000000000

-- `100000000 * feeCalculators[type]()`; `none` where the table has no entry.
unfoldable pub min_fee : ℕ → Option ℕ
min_fee t =
    if t == 0 || t == 3 || t == 4 || t == 5
    then some 10000000
    else if t == 1 || t == 2
    then some 500000000
    else if t == 6
    then some 0
    else if t == 10 || t == 100
    then some 10000000000
    else if t == 101
    then some 50000000000
    else if t == 102 || t == 103 || (leb 201 t && leb t 210)
    then some 10000000
    else none
