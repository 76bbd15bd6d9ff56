-- ===== src/Bodies/Summary.antt =====
-- What a MESSAGE carries.
use sippak.Prelude.{
  ◌≤◌, ◌≡◌, refl, sym, ap, ◌∙◌, true, false, none, some, length, take, take_all, length-take, ltb,
  Bool-cases, inl, inr, arith,
}
use sippak.Config.{PjStr, slen, text, Config, msg_body_len}
use sippak.Bodies.{cut, add_message_body}

message_long :
    (app : Config)
    → ltb msg_body_len (slen app.body) ≡ true
    → add_message_body app ≡ (record app { body = cut app.body }, text (cut app.body))
unfolding add_message_body
message_long app e = rw (add_message_body, e) refl

message_short :
    (app : Config)
    → ltb msg_body_len (slen app.body) ≡ false
    → add_message_body app ≡ (app, text app.body)
unfolding add_message_body
message_short app e = rw (add_message_body, e) refl

text-cut : (body : PjStr) → text (cut body) ≡ take msg_body_len (text body)
text-cut none = refl
text-cut (some b) = refl

slen-cut : (body : PjStr) → ltb msg_body_len (slen (cut body)) ≡ false
slen-cut none = refl
slen-cut (some b) =
    let short : length (take msg_body_len b) ≤ msg_body_len =
      omega (arith, length-take msg_body_len b) in
    ground arith

text_short : (body : PjStr) → slen body ≤ msg_body_len → text body ≡ take msg_body_len (text body)
text_short none h = refl
text_short (some b) h = sym (take_all msg_body_len b h)

-- A MESSAGE carries at most the first 128 bytes of the text from the command line, and the whole of
-- a text that is not longer; a second one from the configuration behind it carries the same.
pub add_message_body-take :
    (app : Config)
    → ((add_message_body app).1 ≡ take msg_body_len (text app.body))
      × (add_message_body (add_message_body app).0 ≡ add_message_body app)
add_message_body-take app = elim (Bool-cases (ltb msg_body_len (slen app.body))) [
  | inl e ↦
      let cut_app : Config = record app { body = cut app.body } in
      (
        ap (λ r. r.1) (message_long app e) ∙ text-cut app.body,
        ap (λ r. add_message_body r.0) (message_long app e)
            ∙ message_short cut_app (slen-cut app.body)
            ∙ sym (message_long app e),
      )
  | inr e ↦ (
    ap (λ r. r.1) (message_short app e) ∙ text_short app.body (ground arith),
    ap (λ r. add_message_body r.0) (message_short app e),
  )
]
