-- ===== src/Assembly/Trigger/Printed.antt =====
-- Input channel conditions that are written out and read again.
use mathlib.Core.Path.{subst}
use tia_infrastructure.Prelude.{
  ℕ, ◌+◌, ◌<◌, ◌≡◌, ◌≢◌, refl, sym, ap, ◌∙◌, Bool, true, false, not, List, [], ◌∷◌, ◌++◌, map, All,
  Result, ok, arith, ◌>>=◌,
}
use tia_infrastructure.Prelude.Int.{ℤ, pos}
use tia_infrastructure.Prelude.Text.{
  Text, codes, is_space, starts_with, split, drop, last_part, cons_first,
}
use tia_infrastructure.Prelude.Text.Parts.{
  Without, Solid, All-append, All-numeral, split-Without, split-append, strip-Solid, numeral, value,
  IsNumeral, int-numeral,
}
use tia_infrastructure.Assembly.{each, strip_each}
use tia_infrastructure.Assembly.Trigger.{
  Trigger, channel_tokens, tokenize_input_channel_string, input_channel, input_channel_tag,
  extract_input_channels, extract_input_channel_tags, extract_input_channel_tag_booleans,
  add_input_channels_conditions_from_string,
}

-- A condition on an input channel: whether the tag must be there or must not, and the digits of the
-- channel's index and of the tag.
pub record Condition : Type 0 where
  pub wanted : Bool
  pub channel : List ℕ
  pub tag : List ℕ

pub record IsCondition (c : Condition) : Type 0 where
  pub channel : IsNumeral c.channel
  pub tag : IsNumeral c.tag

-- `%i0.1` or `!%i0.1`
abbrev pub mark : Bool → Text
mark true = []
mark false = codes "!"

abbrev pub left : Condition → Text
left c = mark c.wanted ++ (codes "%i" ++ numeral c.channel)

abbrev pub token : Condition → Text
token c = left c ++ (b'.' ∷ numeral c.tag)

-- The conditions with a comma and a space between them.
abbrev pub written : List Condition → Text
written [] = []
written (c ∷ []) = token c
written (c ∷ d ∷ cs) = token c ++ (b',' ∷ b' ' ∷ written (d ∷ cs))

abbrev tokens : List Condition → List Text
tokens [] = []
tokens (c ∷ cs) = token c ∷ tokens cs

All_of_IsNumeral : (ds : List ℕ) → IsNumeral ds → All (λ d. d < 10) ds
All_of_IsNumeral [] h = absurd h
All_of_IsNumeral (d ∷ ds) h = h

-- A property of the characters of a token, from those that it is made of.
module _ (P : ℕ → Type 0) (digit : (d : ℕ) → d < 10 → P (48 + d)) where
  All-mark : (b : Bool) → P b'!' → All P (mark b)
  All-mark true p = tt
  All-mark false p = (p, tt)

  All-left : (c : Condition) → IsCondition c → P b'!' → P b'%' → P b'i' → All P (left c)
  All-left c h p q r =
      All-append P (mark c.wanted) (codes "%i" ++ numeral c.channel) (All-mark c.wanted p)
        (q, (r, All-numeral P c.channel digit (All_of_IsNumeral c.channel h.channel)))

  All-token : (c : Condition) → IsCondition c → P b'!' → P b'%' → P b'i' → P b'.' → All P (token c)
  All-token c h p q r s =
      All-append P (left c) (b'.' ∷ numeral c.tag) (All-left c h p q r)
        (s, All-numeral P c.tag digit (All_of_IsNumeral c.tag h.tag))

token-Without : (c : Condition) → IsCondition c → Without b',' (token c)
token-Without c h =
    All-token (λ x. x ≢ b',') (λ d l e. omega (arith, l, e)) c h (λ e. omega (arith, e))
      (λ e. omega (arith, e)) (λ e. omega (arith, e)) (λ e. omega (arith, e))

token-Solid : (c : Condition) → IsCondition c → Solid is_space (token c)
token-Solid c h = All-token (λ x. is_space x ≡ false) (λ d l. ground arith) c h refl refl refl refl

strip_each-cons_first :
    (t : Text) (ts ss : List Text)
    → strip_each ss ≡ t ∷ ts
    → strip_each (cons_first b' ' ss) ≡ t ∷ ts
strip_each-cons_first t ts [] e = cc
strip_each-cons_first t ts (s ∷ ss) e = e

-- Split at the commas and stripped, the text gives the tokens.
written-split :
    (c : Condition) (cs : List Condition)
    → All IsCondition (c ∷ cs)
    → strip_each (split (codes ",") (written (c ∷ cs))) ≡ tokens (c ∷ cs)
written-split c [] (h, _) = rw (
  split-Without b',' (token c) (token-Without c h),
  strip-Solid is_space (token c) (token-Solid c h),
)
written-split c (d ∷ cs) (h, hs) =
    let rest = strip_each-cons_first (token d) (tokens cs) _ (written-split d cs hs) in
    rw
      (
        split-append b',' (token c) (b' ' ∷ written (d ∷ cs)) (token-Without c h),
        strip-Solid is_space (token c) (token-Solid c h),
      )
      (ap (λ (ts : List Text). token c ∷ ts) rest)

marked_token :
    (b : Bool) (s : Text) (ss : List Text)
    → channel_tokens ((mark b ++ (codes "%i" ++ s)) ∷ ss)
      ≡ (channel_tokens ss >>= λ ts. ok ((mark b ++ (codes "%i" ++ s)) ∷ ts))
marked_token true s ss = refl
marked_token false s ss = refl

marked_boolean :
    (b : Bool) (s : Text) → not (starts_with (codes "!") (mark b ++ (codes "%i" ++ s))) ≡ b
marked_boolean true s = refl
marked_boolean false s = refl

-- The channel's digits, behind the mark.
marked_channel :
    (b : Bool) (s : Text)
    → Without b'!' s
    → drop 2 (last_part (split (codes "!") (mark b ++ (codes "%i" ++ s)))) ≡ s
marked_channel true s h = rw (split-Without b'!' s h) refl
marked_channel false s h = rw (split-Without b'!' s h) refl

token-append :
    (c : Condition)
    → token c ≡ mark c.wanted ++ (codes "%i" ++ (numeral c.channel ++ (b'.' ∷ numeral c.tag)))
token-append c = by_mark c.wanted
  where
    by_mark :
        (b : Bool)
        → (mark b ++ (codes "%i" ++ numeral c.channel)) ++ (b'.' ∷ numeral c.tag)
          ≡ mark b ++ (codes "%i" ++ (numeral c.channel ++ (b'.' ∷ numeral c.tag)))
    by_mark true = refl
    by_mark false = refl

channel_tokens-tokens : (cs : List Condition) → channel_tokens (tokens cs) ≡ ok (tokens cs)
channel_tokens-tokens [] = refl
channel_tokens-tokens (c ∷ cs) =
    subst (λ t. channel_tokens (t ∷ tokens cs) ≡ ok (t ∷ tokens cs)) (sym (token-append c))
      (marked_token c.wanted (numeral c.channel ++ (b'.' ∷ numeral c.tag)) (tokens cs)
        ∙ rw (channel_tokens-tokens cs) refl)

tokenize-written :
    (cs : List Condition)
    → All IsCondition cs
    → tokenize_input_channel_string (written cs) ≡ ok (tokens cs)
unfolding tokenize_input_channel_string
tokenize-written [] h = refl
tokenize-written (c ∷ cs) h =
    ap channel_tokens (written-split c cs h) ∙ channel_tokens-tokens (c ∷ cs)

-- A token has two parts about its full stop.
token-split :
    (c : Condition) → IsCondition c → split (codes ".") (token c) ≡ left c ∷ numeral c.tag ∷ []
token-split c h =
    split-append b'.' (left c) (numeral c.tag) (
      All-left (λ x. x ≢ b'.') (λ d l e. omega (arith, l, e)) c h (λ e. omega (arith, e))
        (λ e. omega (arith, e)) (λ e. omega (arith, e)))
    ∙ ap (λ (ts : List Text). left c ∷ ts)
        (split-Without b'.' (numeral c.tag) (
          All-numeral (λ x. x ≢ b'.') c.tag (λ d l e. omega (arith, l, e))
            (All_of_IsNumeral c.tag h.tag)))

input_channel-token :
    (c : Condition) → IsCondition c → input_channel (token c) ≡ ok (pos (value c.channel))
input_channel-token c h =
    rw
      (
        token-split c h,
        marked_channel c.wanted (numeral c.channel) (
            All-numeral (λ x. x ≢ b'!') c.channel (λ d l e. omega (arith, l, e))
              (All_of_IsNumeral c.channel h.channel)),
      )
      (int-numeral c.channel h.channel)

input_channel_tag-token :
    (c : Condition) → IsCondition c → input_channel_tag (token c) ≡ ok (pos (value c.tag))
input_channel_tag-token c h = rw (token-split c h) (int-numeral c.tag h.tag)

each-tokens :
    (f : Text → Result ℤ) (g : Condition → ℤ)
    → ((c : Condition) → IsCondition c → f (token c) ≡ ok (g c))
    → (cs : List Condition) → All IsCondition cs
    → each f (tokens cs) ≡ ok (map g cs)
each-tokens f g e [] h = refl
each-tokens f g e (c ∷ cs) (h, hs) = rw (e c h, each-tokens f g e cs hs)

booleans-tokens :
    (cs : List Condition) → extract_input_channel_tag_booleans (tokens cs) ≡ map (λ c. c.wanted) cs
unfolding extract_input_channel_tag_booleans
booleans-tokens [] = refl
booleans-tokens (c ∷ cs) =
    let first : not (starts_with (codes "!") (token c)) ≡ c.wanted =
      subst (λ t. not (starts_with (codes "!") t) ≡ c.wanted) (sym (token-append c))
        (marked_boolean c.wanted (numeral c.channel ++ (b'.' ∷ numeral c.tag))) in
    ap (λ (b : Bool). b ∷ extract_input_channel_tag_booleans (tokens cs)) first
    ∙ ap (λ (bs : List Bool). c.wanted ∷ bs) (booleans-tokens cs)

-- Conditions that are written with decimal numerals, and with a comma and a space between them, are
-- read as what they say: their channels, their tags, and for each whether it must be there.
pub add_input_channels_conditions_from_string-written :
    (cs : List Condition) (t : Trigger)
    → All IsCondition cs
    → add_input_channels_conditions_from_string (written cs) t
      ≡ ok (record t {
        input_channels = t.input_channels ++ map (λ c. pos (value c.channel)) cs;
        input_channel_tags = t.input_channel_tags ++ map (λ c. pos (value c.tag)) cs;
        input_channel_tag_booleans = t.input_channel_tag_booleans ++ map (λ c. c.wanted) cs;
      })
unfolding add_input_channels_conditions_from_string extract_input_channels
    extract_input_channel_tags
add_input_channels_conditions_from_string-written cs t h = rw (
  tokenize-written cs h,
  each-tokens input_channel (λ c. pos (value c.channel)) input_channel-token cs h,
  each-tokens input_channel_tag (λ c. pos (value c.tag)) input_channel_tag-token cs h,
  booleans-tokens cs,
)
