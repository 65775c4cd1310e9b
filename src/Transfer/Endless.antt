-- ===== src/Transfer/Endless.antt =====
-- A copy between memories, whose reads and writes report no end.
use frozen.Base.{ℕ, zero, suc, ◌-◌, ◌≡◌, refl, ◌∙◌, min, none, length, ok}
use frozen.Memory.{Bytes, Memory, memory_write}
use frozen.Memory.Valid.{IsAllocated}
use frozen.Memory.Access.{window, memory_read-window, memory_write-Written}
use frozen.Transfer.{
  data_memory_t_read, data_memory_t_write, def_buffer_size, copy_loop, data_default_convert_to,
}
use frozen.Transfer.Copied.{copy_more, copy_first}

read_ok :
    (m : Memory)
    → IsAllocated m
    → (offset n : ℕ)
    → data_memory_t_read m offset n ≡ (ok 0, length (window m offset n), window m offset n)
unfolding data_memory_t_read
read_ok m a offset n = rw (data_memory_t_read, memory_read-window m a offset n)

write_ok :
    (m : Memory)
    → IsAllocated m
    → (offset : ℕ) (buffer : Bytes)
    → (n : ℕ) × (m' : Memory) × (data_memory_t_write m offset buffer ≡ (ok 0, n, m'))
      × IsAllocated m'
unfolding data_memory_t_write
write_ok m a offset buffer =
    let w = memory_write-Written m a offset buffer in
    (
      min (length buffer) (m.exact_size - offset),
      (memory_write m offset buffer).0,
      rw (data_memory_t_write, w.count),
      w.allocated,
    )

loop_endless :
    (fuel r w t : ℕ) (buffer : Bytes) (src dest : Memory)
    → IsAllocated src
    → IsAllocated dest
    → copy_loop (data_memory_t_read src) data_memory_t_write fuel r w t buffer dest ≡ none
unfolding copy_loop
loop_endless zero r w t buffer src dest a b = refl
loop_endless (suc fuel) r w t buffer src dest a b =
    let (n, dest', e, b') = write_ok dest b w buffer in
    copy_more (data_memory_t_read src) data_memory_t_write fuel r w t n _ buffer _ dest dest' e
      (read_ok src a r def_buffer_size)
    ∙ loop_endless fuel _ _ _ _ src dest' a b'

-- `data_default_convert_to` from a memory to a memory, both allocated, never returns, whatever they
-- hold: past its end a memory reads no bytes and reports no error, and the loop goes on.
pub data_default_convert_to-diverges :
    (fuel : ℕ) (src dest : Memory)
    → IsAllocated src
    → IsAllocated dest
    → data_default_convert_to (data_memory_t_read src) data_memory_t_write fuel dest ≡ none
data_default_convert_to-diverges fuel src dest a b =
    copy_first (data_memory_t_read src) data_memory_t_write fuel _ _ dest
      (read_ok src a 0 def_buffer_size)
    ∙ loop_endless fuel _ 0 0 _ src dest a b
