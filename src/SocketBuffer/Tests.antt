-- ===== src/SocketBuffer/Tests.antt =====
-- Concrete socket buffers: an empty one, and a pool of two slots of which one is taken.
use osai.Prelude.{◌≡◌, arith, true, false, some, [], ◌∷◌, min, take, drop, ◌++◌, ◌+◌}
use osai.SocketBuffer.{SocketBuffer, BufferPool, write, read, available, used}
use osai.SocketBuffer.Fifo.{IsValid, contents, write_appends, read_removes}

-- Two bytes at the end of the array: the next byte written wraps.
abbrev at_the_end : SocketBuffer
at_the_end = record { cells = λ i. i; head = 0; tail = 4094; count = 2 }

at_the_end-IsValid : IsValid at_the_end
at_the_end-IsValid = record {
  head_in = omega arith;
  tail_in = omega arith;
  count_in = omega arith;
  head_at = omega arith;
}

write_appends_example :
    (b' : SocketBuffer) × (write (some at_the_end) (some (7 ∷ 8 ∷ [])) 2
      ≡ (min 2 (available (some at_the_end)), some b'))
    × IsValid b'
    × (contents b' ≡ contents at_the_end ++ take (min 2 (available (some at_the_end))) (7 ∷ 8 ∷ []))
    × (used (some b') ≡ used (some at_the_end) + min 2 (available (some at_the_end)))
write_appends_example = write_appends at_the_end (7 ∷ 8 ∷ []) 2 at_the_end-IsValid (omega arith)

read_removes_example :
    (b' : SocketBuffer) × (read (some at_the_end) true 1 ≡ (
      min 1 (used (some at_the_end)),
      take (min 1 (used (some at_the_end))) (contents at_the_end),
      some b',
    ))
    × IsValid b'
    × (contents b' ≡ drop (min 1 (used (some at_the_end))) (contents at_the_end))
read_removes_example = read_removes at_the_end 1 at_the_end-IsValid

abbrev two_slots : BufferPool
two_slots =
    record { buf = at_the_end; in_use = true } ∷ record { buf = at_the_end; in_use = false } ∷ []
