-- ===== src/Media/Choice/Refines.antt =====
-- The slots of `sippak_set_media_codecs_cfg` refine the list of the codecs chosen so far.
use sippak.Prelude.{
  ℕ, ◌+◌, ◌≤◌, ◌<◌, ◌≡◌, ◌≢◌, refl, sym, ap, false, not, List, [], ◌∷◌, ◌++◌, map, Option, none,
  some, length, take, if◌then◌else◌, Bool-cases, inl, inr, length-append, take-length-append,
  length-map, arith,
}
use sippak.CString.{Bytes}
use sippak.Strings.{Strings, StringLaws}
use sippak.Strings.Tokens.{tokens}
use sippak.Strings.Loop.{resume, fold_tokens, token_loop_lem}
use sippak.Config.{
  Status, success, cli_einvarg, Outcome, ok, Codec, speex, all, Media, num_codecs_avail, write,
}
use sippak.Media.{
  Build, is_codec_set, support_codec, codec_str_parse, store_codec, add_codec, codec_step,
  codec_body, codec_finish, set_media_codecs_cfg,
}
use sippak.Media.Choice.{
  elem, Wanted, chosen, everything, refused, choose, seen, seen-le, seen_new, everyone,
  elem-everyone,
}

-- The first `length acc` slots hold `acc`, which names no codec twice; there are twelve slots.
record Holds (i : ℕ) (codecs : List (Option Codec)) (acc : List Codec) : Type 0 where
  rest : List (Option Codec)
  slots : codecs ≡ map some acc ++ rest
  size : length codecs ≡ num_codecs_avail
  index : i ≡ length acc
  distinct : length acc ≤ seen everyone acc

is_codec_set-elem :
    (c : Codec) (acc : List Codec) (rest : List (Option Codec))
    → is_codec_set (map some acc ++ rest) (length acc) c ≡ elem c acc
unfolding is_codec_set elem
is_codec_set-elem c [] [] = refl
is_codec_set-elem c [] (x ∷ rest) = refl
is_codec_set-elem c (d ∷ acc) rest = rw (is_codec_set-elem c acc rest)

write_next :
    (acc : List Codec) (x : Option Codec) (rest : List (Option Codec)) (c : Codec)
    → write (map some acc ++ (x ∷ rest)) (length acc) (some c)
      ≡ ok (map some (acc ++ (c ∷ [])) ++ rest)
unfolding write
write_next [] x rest c = refl
write_next (d ∷ acc) x rest c = rw (write_next acc x rest c)

Holds-concat :
    {i : ℕ} {codecs : List (Option Codec)} {acc : List Codec} (c : Codec)
    → c ≢ all
    → elem c acc ≡ false
    → Holds i codecs acc
    → (codecs' : List (Option Codec)) × (write codecs i (some c) ≡ ok codecs')
      × Holds (i + 1) codecs' (acc ++ (c ∷ []))
Holds-concat {i} {codecs} {acc} c ne new h = go h.rest (h.slots)
  where
    more : seen everyone acc < seen everyone (acc ++ (c ∷ []))
    more = seen_new everyone acc c (elem-everyone c ne) new

    longer : length (acc ++ (c ∷ [])) ≡ length acc + 1
    longer = length-append acc (c ∷ [])

    full : (length (map {B = Option Codec} some acc)) ≡ length acc
    full = length-map acc some

    go :
        (rest : List (Option Codec))
        → codecs ≡ map some acc ++ rest
        → (codecs' : List (Option Codec)) × (write codecs i (some c) ≡ ok codecs')
          × Holds (i + 1) codecs' (acc ++ (c ∷ []))
    go [] e = absurd (
        omega (
          arith,
          h.size,
          h.distinct,
          more,
          seen-le everyone (acc ++ (c ∷ [])),
          full,
          ap length e,
          length-append (map {B = Option Codec} some acc) [],
        ))
    go (x ∷ rest) e = (
      map some (acc ++ (c ∷ [])) ++ rest,
      rw (e, h.index) (write_next acc x rest c),
      record {
        rest = rest;
        slots = refl;
        size = omega (
          arith,
          h.size,
          ap length e,
          length-append (map {B = Option Codec} some acc) (x ∷ rest),
          length-append (map {B = Option Codec} some (acc ++ (c ∷ []))) rest,
          length-map (acc ++ (c ∷ [])) (λ (d : Codec). some d),
          full,
          longer,
        );
        index = omega (arith, h.index, longer);
        distinct = omega (arith, h.distinct, more, longer);
      },
    )

-- `sippak_set_media_codecs_cfg` returned this status and left this count; the first slots hold
-- `acc`, the array keeps its size, and the RTP port is as it was.
pub record Ended (media : Media) (s : Status) (cnt : ℕ) (acc : List Codec)
    (r : Outcome (Status × Media)) : Type 0 where
  pub after : Media
  pub returns : r ≡ ok (s, after)
  pub count : after.cnt ≡ cnt
  pub slots : take (length acc) after.codec ≡ map some acc
  pub size : length after.codec ≡ num_codecs_avail
  pub port : after.rtp_port ≡ media.rtp_port

-- What the code owes to a choice.
abbrev pub Implements : Media → Wanted → Outcome (Status × Media) → Type 0
Implements media (chosen acc) r = Ended media success (length acc) acc r
Implements media (everything acc) r = Ended media success num_codecs_avail acc r
Implements media (refused acc) r = Ended media cli_einvarg media.cnt acc r

take-slots :
    {codecs : List (Option Codec)} (acc : List Codec) (rest : List (Option Codec))
    → codecs ≡ map some acc ++ rest
    → take (length acc) codecs ≡ map some acc
take-slots acc rest e =
    rw (e, sym (length-map acc (λ (d : Codec). some d))) (take-length-append (map some acc) rest)

ended :
    {media : Media} {i : ℕ} {codecs : List (Option Codec)} {acc : List Codec} (s : Status) (cnt : ℕ)
    → Holds i codecs acc
    → Ended media s cnt acc (ok (s, record media { cnt = cnt; codec = codecs }))
ended {media} {i} {codecs} s cnt h = record {
  after = record media { cnt = cnt; codec = codecs };
  returns = refl;
  count = refl;
  slots = take-slots _ h.rest h.slots;
  size = h.size;
  port = refl;
}

module _ (lib : Strings) (build : Build) (media : Media) where
  abbrev Later : (ℕ × List (Option Codec) → Outcome (Status × Media)) → List (Option Codec) → Type 0
  Later k names =
      (i : ℕ) (codecs : List (Option Codec)) (acc : List Codec)
      → Holds i codecs acc
      → Implements media (choose (support_codec build) names acc) (k (i, codecs))

  module _ (k : ℕ × List (Option Codec) → Outcome (Status × Media)) (names : List (Option Codec))
      (later : Later k names) where
    add_codec-Implements :
        {i : ℕ} {codecs : List (Option Codec)} {acc : List Codec} (c : Codec)
        → c ≢ all
        → Holds i codecs acc
        → Implements media
            (let sup = support_codec build in
              if not (sup c)
              then refused acc
              else if elem c acc
              then choose sup names acc
              else choose sup names (acc ++ (c ∷ [])))
            (resume k (add_codec lib build media c (i, codecs)))
    unfolding add_codec
    add_codec-Implements {i} {codecs} {acc} c ne h = elim (Bool-cases (support_codec build c)) [
      | inr no_support ↦ rw no_support (ended cli_einvarg media.cnt h)
      | inl supported ↦
          rw (supported, old)
            (elim (Bool-cases (elem c acc)) [
              | inl repeated ↦ rw repeated (later i codecs acc h)
              | inr new ↦
                  let (codecs', written, h') = Holds-concat c ne new h in
                  rw (new, written, store_codec) (later (i + 1) codecs' (acc ++ (c ∷ [])) h')
            ])
    ]
      where
        old : is_codec_set codecs i c ≡ elem c acc
        old = rw (h.slots, h.index) (is_codec_set-elem c acc h.rest)

    codec_step-Implements :
        (name : Option Codec) (i : ℕ) (codecs : List (Option Codec)) (acc : List Codec)
        → Holds i codecs acc
        → Implements media
            (choose (support_codec build) (name ∷ names) acc)
            (resume k (codec_step lib build media name (i, codecs)))
    unfolding choose codec_step
    codec_step-Implements none i codecs acc h = ended cli_einvarg media.cnt h
    codec_step-Implements (some all) i codecs acc h = ended success num_codecs_avail h
    codec_step-Implements (some speex) i codecs acc h = add_codec-Implements speex (λ e. cc) h
    codec_step-Implements (some c) i codecs acc h = add_codec-Implements c (λ e. cc) h

  fold-Implements :
      (ts : List Bytes)
      → Later
          (fold_tokens (codec_body lib build media) (codec_finish lib build media) ts)
          (map (codec_str_parse lib) ts)
  unfolding fold_tokens codec_body choose
  fold-Implements [] i codecs acc h = rw (← h.index) (ended success i h)
  fold-Implements (t ∷ ts) i codecs acc h =
      codec_step-Implements
        (fold_tokens (codec_body lib build media) (codec_finish lib build media) ts)
        (map (codec_str_parse lib) ts) (fold-Implements ts) (codec_str_parse lib t) i codecs acc h

pub set_media_codecs_cfg-choose :
    {lib : Strings} (laws : StringLaws lib) (build : Build) (media : Media) (names : Bytes)
    → length media.codec ≡ num_codecs_avail
    → (r : Outcome (Status × Media)) × (set_media_codecs_cfg lib build media names ≡ some r)
      × Implements media
          (choose (support_codec build) (map (codec_str_parse lib) (tokens b',' names)) [])
          r
unfolding set_media_codecs_cfg
set_media_codecs_cfg-choose {lib} laws build media names size = (
  fold_tokens (codec_body lib build media) (codec_finish lib build media) (tokens b',' names)
      (0, media.codec),
  token_loop_lem (codec_body lib build media) (codec_finish lib build media) laws names b','
      (0, media.codec),
  fold-Implements lib build media (tokens b',' names) 0 media.codec [] (record {
    rest = media.codec;
    slots = refl;
    size = size;
    index = refl;
    distinct = omega arith;
  }),
)

-- Whatever the choice, the call returns, and the array keeps its size.
pub Implements-size :
    (media : Media) (w : Wanted) {r : Outcome (Status × Media)}
    → Implements media w r
    → (s : Status) × (after : Media) × (r ≡ ok (s, after)) × (length after.codec ≡ num_codecs_avail)
Implements-size media (chosen acc) e = (success, e.after, e.returns, e.size)
Implements-size media (everything acc) e = (success, e.after, e.returns, e.size)
Implements-size media (refused acc) e = (cli_einvarg, e.after, e.returns, e.size)
