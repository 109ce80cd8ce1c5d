-- ===== src/Payload/Sizes.antt =====
-- How long the payloads of payload.go are.
use mqtt_load_generator.Base.{
  ℕ, ◌+◌, ◌-◌, ◌^◌, ◌≤◌, ◌<◌, true, false, ℤ, pos, negsuc, ◌≤ℤ◌, ◌++◌, length, length-append,
  length-replicate, ◌≡◌, arith,
}
use mqtt_load_generator.Base.Text.{Bytes, append_int, append_int-length, append_int_digits}
use mqtt_load_generator.Payload.{
  payload_middle, payload_end, padding_size, padding, payload_capacity, benchmark_payload_generator,
  new_payload_generator,
}

length-payload :
    (size : ℕ) (now : ℤ)
    → length (benchmark_payload_generator size now)
      ≡ 27 + padding_size size + length (append_int now)
unfolding benchmark_payload_generator
length-payload size now = omega (
  arith,
  length-append (append_int now) (payload_middle ++ (padding size ++ payload_end)),
  length-append (padding size) payload_end,
  length-replicate {A = ℕ} (padding_size size) b'x',
)

-- An int64 time, before or after 1970, leaves the benchmark payload within the capacity that was
-- set aside for it, so `append` never grows the slice.
pub payload_fits_capacity :
    (size : ℕ) (now : ℤ)
    → negsuc (2 ^ 63 - 1) ≤ℤ now
    → now ≤ℤ pos (2 ^ 63 - 1)
    → length (benchmark_payload_generator size now) ≤ payload_capacity size
unfolding payload_capacity
payload_fits_capacity size now low high = omega (
  arith,
  length-payload size now,
  append_int-length now low high,
  length-replicate {A = ℕ} (padding_size size) b'x',
)

-- A static payload has exactly the size that was asked for, given that filling a slice keeps its
-- length. A benchmark payload does not: with a time of 13 digits (the years 2001 to 2286) it is 10
-- bytes shorter than any size from 50 on, and 40 bytes long for any smaller size.
pub payload_sizes :
    (fill : ℕ → Bytes) (size now : ℕ)
    → length (fill size) ≡ size
    → 10 ^ 12 ≤ now
    → now < 10 ^ 13
    → (length (new_payload_generator fill size false (pos now)) ≡ size)
      × (50 ≤ size → length (new_payload_generator fill size true (pos now)) + 10 ≡ size)
      × (size < 50 → length (new_payload_generator fill size true (pos now)) ≡ 40)
unfolding new_payload_generator
payload_sizes fill size now same low high =
    let thirteen : length (append_int (pos now)) ≡ 13 =
      append_int_digits now 12 (omega arith) low high in
    (
      same,
      λ h. ground (arith, length-payload size (pos now)),
      λ h. ground (arith, length-payload size (pos now)),
    )
