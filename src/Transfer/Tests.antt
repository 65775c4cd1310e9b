-- ===== src/Transfer/Tests.antt =====
-- Copies and comparisons of small blocks.
use frozen.Base.{
  ◌++◌, true, ℕ, ◌≡◌, refl, Option, none, some, [], ◌∷◌, arith, replicate, Result, ok,
}
use frozen.Memory.{Bytes, Memory, double, alloc_malloc}
use frozen.Memory.Valid.{IsAllocated}
use frozen.Transfer.Copied.{data_default_convert_to-copy}
use frozen.Transfer.Endless.{data_default_convert_to-diverges}
use frozen.Transfer.Slid.{data_slider_t_read-take}
use frozen.Transfer.Sliced.{part, data_slice_t_read-part}
use frozen.Transfer.{
  data_slider_t_freeze, not_frozen, data_slider_t_unfreeze, data_slider_t_get_offset, Slider,
  data_slider_t_read, data_memory_t_write, Slice, data_memory_t_read, data_slice_t_read,
  data_default_read, data_default_write, data_default_convert_to, data_default_compare,
}

abbrev block_3 : Bytes
block_3 = 1 ∷ 2 ∷ 3 ∷ []

test_convert :
    data_default_convert_to
      (data_default_read (some block_3))
      data_default_write
      2
      (some (7 ∷ 7 ∷ 7 ∷ 7 ∷ []))
    ≡ some (ok 3, some (1 ∷ 2 ∷ 3 ∷ 7 ∷ []))
unfolding data_default_convert_to data_default_read data_default_write
test_convert = refl

abbrev compared : Bytes → Bytes → Option (Result ℕ)
compared a b =
    data_default_compare (data_default_read (some a)) (data_default_read (some b))
      (replicate 1024 0) 5

test_less : compared (1 ∷ 2 ∷ []) block_3 ≡ some (ok 1)
unfolding data_default_compare data_default_read
test_less = refl

test_equal : compared block_3 block_3 ≡ some (ok 0)
unfolding data_default_compare data_default_read
test_equal = refl

test_greater : compared (1 ∷ 3 ∷ []) block_3 ≡ some (ok 2)
unfolding data_default_compare data_default_read
test_greater = refl

-- Two empty blocks: the first read leaves its buffer with the size that was asked for.
test_empty : compared [] [] ≡ some (ok 2)
unfolding data_default_compare data_default_read
test_empty = refl

data_default_convert_to-copy_example :
    data_default_convert_to
      (data_default_read (some block_3))
      data_default_write
      4
      (some (7 ∷ 7 ∷ 7 ∷ 7 ∷ []))
    ≡ some (ok 3, some (1 ∷ 2 ∷ 3 ∷ 7 ∷ []))
data_default_convert_to-copy_example =
    data_default_convert_to-copy 4 block_3 (7 ∷ 7 ∷ 7 ∷ 7 ∷ []) (omega arith) (omega arith)
      (omega arith)

-- A memory of three bytes.
abbrev three : Memory
three = record {
  ptr = some (1 ∷ 2 ∷ 3 ∷ []);
  ptr_size = 3;
  exact_size = 3;
  page_size = 0;
  zero_fill = true;
  type = double;
  alloc = alloc_malloc;
}

three-IsAllocated : IsAllocated three
three-IsAllocated = record { has_block = refl; sized = refl; fits = omega arith; malloc = refl }

data_default_convert_to-diverges_example :
    data_default_convert_to (data_memory_t_read three) data_memory_t_write 9 three ≡ none
data_default_convert_to-diverges_example =
    data_default_convert_to-diverges 9 three three three-IsAllocated three-IsAllocated

-- The last two bytes of the block.
abbrev last_two : Slice
last_two = record { off = 1; size = 2 }

data_slice_t_read-part_example :
    data_slice_t_read (data_default_read (some block_3)) last_two 1 5
    ≡ data_default_read (some (part block_3 last_two)) 1 5
data_slice_t_read-part_example =
    data_slice_t_read-part block_3 last_two 1 5 (omega arith) (omega arith) (omega arith)

test_slice : data_slice_t_read (data_default_read (some block_3)) last_two 1 5 ≡ (ok 0, 1, 3 ∷ [])
unfolding data_slice_t_read data_default_read
test_slice = refl

abbrev slider_1 : Slider
slider_1 = record { off = 1; frozen_off = not_frozen }

data_slider_t_read-take_example :
    let (io1, slider1) = data_slider_t_read (data_default_read (some block_3)) slider_1 0 1 in
    let (io2, slider2) = data_slider_t_read (data_default_read (some block_3)) slider1 0 1 in
    (io1.2 ++ io2.2 ≡ 2 ∷ 3 ∷ []) × (slider2 ≡ record slider_1 { off = 3 })
data_slider_t_read-take_example =
    data_slider_t_read-take block_3 slider_1 1 1 refl (omega arith) (omega arith) (omega arith)
      (omega arith)

-- A frozen slider reads the same place again.
test_freeze :
    data_slider_t_get_offset (
      data_slider_t_unfreeze
        (data_slider_t_read
          (data_default_read (some block_3))
          (data_slider_t_freeze slider_1)
          0
          2).1)
    ≡ 3
unfolding data_slider_t_get_offset data_slider_t_unfreeze data_slider_t_read data_slider_t_freeze
    data_default_read
test_freeze = refl
