-- ===== src/KlogRing/Tests.antt =====
-- A log ring that has just been initialised.
use osai.Prelude.{◌≡◌, refl, arith, some, true, [], ◌∷◌, min, take, drop}
use osai.KlogRing.{KlogRing, klog_ring_init, klog_ring_write, klog_ring_read}
use osai.KlogRing.Window.{IsValid, Written, contents, klog_ring_write-Written}
use osai.KlogRing.Read.{klog_ring_read-oldest}

klog_ring_init-IsValid : IsValid klog_ring_init
unfolding klog_ring_init
klog_ring_init-IsValid = record {
  write_in = omega arith;
  read_in = omega arith;
  count_in = omega arith;
  write_at = omega arith;
  overflow_in = omega arith;
}

klog_ring_write-Written_example :
    Written klog_ring_init (1 ∷ 2 ∷ []) (klog_ring_write klog_ring_init (some (1 ∷ 2 ∷ [])))
unfolding klog_ring_init
klog_ring_write-Written_example =
    klog_ring_write-Written klog_ring_init (1 ∷ 2 ∷ []) klog_ring_init-IsValid refl

abbrev three_bytes : KlogRing
three_bytes = record klog_ring_init {
  buffer = λ i. i;
  write_pos = 2;
  read_pos = 65535;
  count = 3;
  initialized = true;
}

three_bytes-IsValid : IsValid three_bytes
unfolding klog_ring_init
three_bytes-IsValid = record {
  write_in = omega arith;
  read_in = omega arith;
  count_in = omega arith;
  write_at = omega arith;
  overflow_in = omega arith;
}

klog_ring_read-oldest_example :
    let (n, bytes, r') = klog_ring_read three_bytes 2 in
    (n ≡ min 3 2)
    × (bytes ≡ take n (contents three_bytes))
    × (contents r' ≡ drop n (contents three_bytes))
    × IsValid r'
    × (r'.overflow ≡ three_bytes.overflow)
klog_ring_read-oldest_example = klog_ring_read-oldest three_bytes 2 three_bytes-IsValid refl
