-- ===== src/Payload.antt =====
-- internal/mqttload/payload.go: the payloads that pub sends, and the reading of their timestamp by
-- sub in internal/mqttload/subscribe_stats.go.
pub mod Timestamp
pub mod Accepts
pub mod RoundTrip
pub mod Sizes
mod Examples
use mqtt_load_generator.Base.{
  ℕ, suc, ◌+◌, ◌-◌, ltb, if◌then◌else◌, Bool, ℤ, List, ◌++◌, length, replicate,
}
use mqtt_load_generator.Base.Text.{Bytes, codes, append_int}

-- The next payload, at a time in milliseconds since 1970.
abbrev pub PayloadGenerator : Type 0
PayloadGenerator = ℤ → Bytes

-- `fill` stands for `rand.Read` into a new slice of the given length.
unfoldable pub static_payload_generator : (ℕ → Bytes) → ℕ → PayloadGenerator
static_payload_generator fill size = let payload = fill size in λ now. payload

-- `size - 50`, and 0 where that is negative.
abbrev pub padding_size : ℕ → ℕ
padding_size size = if ltb size 50 then 0 else size - 50

abbrev pub padding : ℕ → Bytes
padding size = replicate (padding_size size) b'x'

abbrev pub payload_start : Bytes
payload_start = codes "{\"timestamp\":"

abbrev pub payload_middle : Bytes
payload_middle = codes ",\"padding\":\""

abbrev pub payload_end : Bytes
payload_end = codes "\"}"

unfoldable pub payload_capacity : ℕ → ℕ
payload_capacity size =
    length payload_start + 20 + length payload_middle + length (padding size) + length payload_end

unfoldable pub benchmark_payload_generator : ℕ → PayloadGenerator
benchmark_payload_generator size now =
    payload_start ++ (append_int now ++ (payload_middle ++ (padding size ++ payload_end)))

unfoldable pub new_payload_generator : (ℕ → Bytes) → ℕ → Bool → PayloadGenerator
unfolding static_payload_generator benchmark_payload_generator
new_payload_generator fill size benchmark =
    if benchmark then benchmark_payload_generator size else static_payload_generator fill size
