-- ===== src/Mphf/Build.antt =====
-- The sizes of an index of mphf_chm_imp.c, and its rebuild.
use frozen.Base.{
  ℕ, zero, suc, ◌+◌, ◌/◌, Option, none, some, [], ◌==◌, leb, if◌then◌else◌, max, replicate, add64,
  sub64, mul64, Result, ok, err, fault, logged,
}
use frozen.SafeMath.{safe_mul, safe_div}
use frozen.Mphf.{Chm, Outcome, done, failed, starved, ◌>>=◌}

abbrev pub chm_const : ℕ
chm_const = 209

abbrev pub rebuild_const : ℕ
rebuild_const = 80

-- The loop of `log_any`; `none` where the fuel was too little.
unfoldable pub log_loop : ℕ → ℕ → ℕ → ℕ → ℕ → Option ℕ
log_loop zero x power t res = none
log_loop (suc fuel) x power t res =
    let rest = log_loop fuel x power (mul64 t power) (add64 res 1) in
    if leb t x then rest else some (add64 res 1)

unfoldable pub log_any : ℕ → ℕ → ℕ → Option ℕ
unfolding log_loop
log_any fuel x power = log_loop fuel x power power 0

-- `BITS_TO_BYTES`.
unfoldable pub bits_to_bytes : ℕ → ℕ
bits_to_bytes x = sub64 x 1 / 8 + 1

-- 2.09 times the capacity: a hundred times as much, or after a division by 100 where that overflows.
unfoldable pub scaled : ℕ → Result ℕ
unfolding safe_mul safe_div
scaled capacity = elim (safe_mul capacity chm_const) [
  | ok n ↦ ok n
  | err _ ↦ elim (safe_div capacity 100) [
    | ok n ↦ safe_mul n chm_const
    | err e ↦ err e
    | fault ↦ fault
  ]
  | fault ↦ fault
]

unfoldable pub chm_imp_configure_r : ℕ → ℕ → Chm → Outcome Chm
unfolding log_any scaled bits_to_bytes
chm_imp_configure_r fuel wanted c =
    let capacity = if wanted == 0 then 1 else wanted in
    elim (scaled capacity) [
      | ok n ↦
          let nvertex = n / 100 in
          elim (log_any fuel nvertex 2) [
            | none ↦ starved
            | some bits ↦ done (record c {
              nvertex = nvertex;
              capacity = capacity;
              bi_vertex = bits;
              bt_vertex = bits_to_bytes bits;
            })
          ]
      | _ ↦ failed logged c
    ]

-- Nothing is left in the three backends.
unfoldable pub chm_imp_file_wipe : Chm → Chm
chm_imp_file_wipe c = record c { be_g = []; be_v = []; be_e = [] }

-- A number and no first edge for each vertex.
unfoldable pub chm_imp_file_init : Chm → Chm
unfolding chm_imp_file_wipe
chm_imp_file_init c = record (chm_imp_file_wipe c) {
  be_g = replicate c.nvertex 0;
  be_v = replicate c.nvertex 0;
}

-- 80 percent of the capacity, or the capacity where that overflows.
unfoldable pub capacity_curr : ℕ → ℕ
unfolding safe_mul safe_div
capacity_curr capacity = elim (safe_div capacity 100) [
  | ok n ↦ elim (safe_mul n rebuild_const) [ ok k ↦ k | _ ↦ capacity ]
  | _ ↦ capacity
]

-- The elements that the new array is for: more if the array is nearly full.
unfoldable pub wanted_elements : Chm → ℕ
unfolding capacity_curr
wanted_elements c =
    if leb (capacity_curr c.capacity) c.nelements
    then mul64 (add64 (max (max c.capacity c.nelements_min) c.nelements) c.nelements_step)
        c.nelements_mul
    else c.capacity

-- A rebuild with two new hashes, which `random` gives; the callers insert the keys again.
unfoldable pub mphf_chm_imp_rebuild : ℕ → ℕ → ℕ → Chm → Outcome Chm
unfolding chm_imp_configure_r chm_imp_file_init wanted_elements
mphf_chm_imp_rebuild fuel random1 random2 c =
    chm_imp_configure_r fuel (wanted_elements c)
      (record c { hash1 = random1; hash2 = random2; nelements = 0 })
    >>= λ c'. done (chm_imp_file_init c')
