-- ===== src/RingBuffer.antt =====
-- clash-netstack/src/ring_buffer.rs: the byte queue between the TCP thread and a connection's reader.
--
-- The two threads' calls are sequences of `enqueue_slice` and `dequeue_slice`: each position has one
-- writer. A `usize` never wraps here, since a buffer has less than 2^63 bytes. A slice that
-- `dequeue_slice` fills is the list of its bytes.
pub mod Slices
pub mod Queue
pub mod Fill
pub mod Read
pub mod Steps
mod Examples
use clash_rs.Prelude.{
  ℕ, ◌+◌, ◌-◌, ◌%◌, ◌==◌, leb, min, Bool, List, ◌++◌, if◌then◌else◌, length, take, drop, replicate,
}

pub record Ring : Type 0 where
  pub buffer : List ℕ
  pub capacity : ℕ
  pub write_pos : ℕ
  pub read_pos : ℕ

unfoldable pub new : ℕ → Ring
new capacity = record {
  buffer = replicate capacity 0;
  capacity = capacity;
  write_pos = 0;
  read_pos = 0;
}

-- `buffer[pos..pos + bytes.len()].copy_from_slice(bytes)`
abbrev pub write_slice : List ℕ → ℕ → List ℕ → List ℕ
write_slice buffer pos bytes = take pos buffer ++ (bytes ++ drop (pos + length bytes) buffer)

-- `&buffer[pos..pos + n]`
abbrev pub slice : List ℕ → ℕ → ℕ → List ℕ
slice buffer pos n = take n (drop pos buffer)

abbrev pub available_space : Ring → ℕ
available_space r =
    if leb r.read_pos r.write_pos
    then r.capacity - r.write_pos + r.read_pos - 1
    else r.read_pos - r.write_pos - 1

abbrev pub filled : Ring → List ℕ → ℕ → List ℕ
filled r bytes to_write =
    if leb (r.write_pos + to_write) r.capacity
    then write_slice r.buffer r.write_pos (take to_write bytes)
    else let first_part = r.capacity - r.write_pos in
      write_slice (write_slice r.buffer r.write_pos (take first_part bytes)) 0
        (slice bytes first_part (to_write - first_part))

unfoldable pub enqueue_slice : Ring → List ℕ → Ring × ℕ
enqueue_slice r bytes =
    let to_write = min (length bytes) (available_space r) in
    if to_write == 0 then (r, 0) else (
      record r {
        buffer = filled r bytes to_write;
        write_pos = (r.write_pos + to_write) % r.capacity;
      },
      to_write,
    )

abbrev pub available_data : Ring → ℕ
available_data r =
    if leb r.read_pos r.write_pos
    then r.write_pos - r.read_pos
    else r.capacity - r.read_pos + r.write_pos

abbrev pub copied : Ring → ℕ → List ℕ
copied r to_read =
    if leb (r.read_pos + to_read) r.capacity
    then slice r.buffer r.read_pos to_read
    else let first_part = r.capacity - r.read_pos in
      drop r.read_pos r.buffer ++ take (to_read - first_part) r.buffer

-- The ring, the caller's slice and the count.
unfoldable pub dequeue_slice : Ring → List ℕ → Ring × List ℕ × ℕ
dequeue_slice r buf =
    let to_read = min (length buf) (available_data r) in
    if to_read == 0 then (r, buf, 0) else (
      record r { read_pos = (r.read_pos + to_read) % r.capacity },
      copied r to_read ++ drop to_read buf,
      to_read,
    )

unfoldable pub is_empty : Ring → Bool
is_empty r = r.read_pos == r.write_pos

unfoldable pub is_full : Ring → Bool
is_full r = ((r.write_pos + 1) % r.capacity) == r.read_pos
