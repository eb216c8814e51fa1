-- ===== src/Notify/Keys.antt =====
-- `dedupe_key`. The text of a UUID and SHA-256 are the standard library's.
use ai_cybersecurity_soc_ana.Common.Text.{Text, codes, lower, strip}
use ai_cybersecurity_soc_ana.Common.{All, [], ap, arith, refl, ℕ, ◌++◌, ◌↔◌, ◌∷◌, ◌≡◌, ◌≢◌}
use ai_cybersecurity_soc_ana.Enums.{NotificationChannel, email, slack, webhook}

unfoldable pub channel_value : NotificationChannel → Text
channel_value slack = codes "slack"
channel_value email = codes "email"
channel_value webhook = codes "webhook"

-- `recipient.strip().lower()`
abbrev pub normalized : Text → Text
normalized recipient = lower (strip recipient)

abbrev pub bar : ℕ
bar = b'|'

abbrev pub HasNoBar : Text → Type 0
HasNoBar = All (λ c. c ≢ bar)

module _ (uuid_text : ℕ → Text) (digest : Text → Text) where
  material : ℕ → ℕ → NotificationChannel → Text → Text
  material investigation approval channel recipient =
      uuid_text investigation
      ++ bar ∷ (uuid_text approval ++ bar ∷ (channel_value channel ++ bar ∷ normalized recipient))

  unfoldable pub dedupe_key : ℕ → ℕ → NotificationChannel → Text → Text
  unfolding material
  dedupe_key investigation approval channel recipient =
      digest (material investigation approval channel recipient)

-- A text before the first bar is determined by the whole.
split_at_bar :
    (a b s t : Text) → HasNoBar a → HasNoBar b → a ++ bar ∷ s ≡ b ++ bar ∷ t → (a ≡ b) × (s ≡ t)
split_at_bar [] [] s t h k e = (refl, cc)
split_at_bar [] (d ∷ b) s t h k e = absurd (k.0 (cc))
split_at_bar (c ∷ a) [] s t h k e = absurd (h.0 (cc))
split_at_bar (c ∷ a) (d ∷ b) s t h k e =
    let (same, rest) = split_at_bar a b s t h.1 k.1 (cc) in (cc, rest)

channel-HasNoBar : (c : NotificationChannel) → HasNoBar (channel_value c)
unfolding channel_value
channel-HasNoBar slack = omega arith
channel-HasNoBar email = omega arith
channel-HasNoBar webhook = omega arith

head_code : Text → ℕ
head_code [] = 0
head_code (c ∷ s) = c

channel_value-injective : (c d : NotificationChannel) → channel_value c ≡ channel_value d → c ≡ d
unfolding channel_value head_code
channel_value-injective slack slack e = refl
channel_value-injective email email e = refl
channel_value-injective webhook webhook e = refl
channel_value-injective slack email e = absurd (omega (arith, ap head_code e))
channel_value-injective slack webhook e = absurd (omega (arith, ap head_code e))
channel_value-injective email slack e = absurd (omega (arith, ap head_code e))
channel_value-injective email webhook e = absurd (omega (arith, ap head_code e))
channel_value-injective webhook slack e = absurd (omega (arith, ap head_code e))
channel_value-injective webhook email e = absurd (omega (arith, ap head_code e))

-- If the digest has no collision, and the text of a UUID names it and has no bar, then two
-- deliveries share a key exactly when they are for the same investigation, approval and channel,
-- and for recipients that differ only in case and in spaces around them.
pub dedupe_key_iff :
    (uuid_text : ℕ → Text) (digest : Text → Text)
    → ((s t : Text) → digest s ≡ digest t → s ≡ t)
    → ((i j : ℕ) → uuid_text i ≡ uuid_text j → i ≡ j)
    → ((i : ℕ) → HasNoBar (uuid_text i))
    → (i j a b : ℕ) (c d : NotificationChannel) (r q : Text)
    → (dedupe_key uuid_text digest i a c r ≡ dedupe_key uuid_text digest j b d q)
      ↔ ((i ≡ j) × (a ≡ b) × (c ≡ d) × (normalized r ≡ normalized q))
unfolding dedupe_key
dedupe_key_iff uuid_text digest no_collision names plain i j a b c d r q = (
  λ e.
      let (first, rest) =
        split_at_bar (uuid_text i) (uuid_text j) _ _ (plain i) (plain j) (no_collision _ _ e) in
      let (second, rest') = split_at_bar (uuid_text a) (uuid_text b) _ _ (plain a) (plain b) rest in
      let (third, last) =
        split_at_bar (channel_value c) (channel_value d) _ _ (channel-HasNoBar c)
          (channel-HasNoBar d) rest' in
      (names i j first, names a b second, channel_value-injective c d third, last),
  λ (same_i, same_a, same_c, same_r). rw (same_i, same_a, same_c, same_r) refl,
)
