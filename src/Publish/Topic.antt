-- ===== src/Publish/Topic.antt =====
-- `clientTopic` of publish.go.
use mqtt_load_generator.Base.{
  ℕ, ◌^◌, ◌<◌, Bool, true, false, if◌then◌else◌, pos, [], ◌∷◌, ◌++◌, ◌≡◌, refl, sym, ap, ◌∙◌,
}
use mqtt_load_generator.Base.Text.{Bytes, value, append_int, append_int-Spells}

-- `fmt.Sprintf("%s/%d", topic, clientNumber)` with the suffix.
unfoldable pub client_topic : Bytes → ℕ → Bool → Bytes
client_topic topic client_number suffix =
    if suffix then topic ++ (b'/' ∷ append_int (pos client_number)) else topic

append_left_cancel : (xs ys zs : Bytes) → xs ++ ys ≡ xs ++ zs → ys ≡ zs
append_left_cancel [] ys zs e = e
append_left_cancel (x ∷ xs) ys zs e = append_left_cancel xs ys zs (cc e)

-- Without the suffix every client publishes to the topic as it is; with it two clients of different
-- numbers never share a topic.
pub client_topic_distinct :
    (topic : Bytes) (m n : ℕ)
    → m < 2 ^ 63
    → n < 2 ^ 63
    → (client_topic topic m false ≡ topic)
      × (client_topic topic m true ≡ client_topic topic n true → m ≡ n)
unfolding client_topic
client_topic_distinct topic m n hm hn = (
  refl,
  λ e.
      let same : append_int (pos m) ≡ append_int (pos n) =
        cc (append_left_cancel topic (b'/' ∷ append_int (pos m)) (b'/' ∷ append_int (pos n)) e) in
      sym (append_int-Spells m hm).exact ∙ ap (value 0) same ∙ (append_int-Spells n hn).exact,
)
