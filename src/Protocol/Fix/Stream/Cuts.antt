-- ===== src/Protocol/Fix/Stream/Cuts.antt =====
-- A stream of serialized messages, cut into whole messages and a part of the next one.
use real_time_market_data_fe.Base.{
  ℕ, ◌*◌, ◌<◌, ◌≤◌, ◌≡◌, ◌∙◌, refl, sym, ap, ltb, dec_lt, false, List, [], ◌∷◌, ◌++◌, append_assoc,
  arith, All, length, drop,
}
use real_time_market_data_fe.Protocol.Fix.Message.{FixMessage, serialize, extract_message_length}
use real_time_market_data_fe.Protocol.Fix.Message.Fields.{IsField}
use real_time_market_data_fe.Protocol.Fix.Message.Framing.{extract_message_length-nil}
use real_time_market_data_fe.Protocol.Fix.Gateway.{FixGateway}
use real_time_market_data_fe.Protocol.Fix.Stream.{clear_overgrown}
use real_time_market_data_fe.Protocol.Fix.Stream.Steps.{cut, serialize-nonempty, extract-partial}

-- The messages' bytes, one after the other.
abbrev pub stream : List FixMessage → List ℕ
stream [] = []
stream (m ∷ ms) = serialize m ++ stream ms

-- A message of fields that the wire can carry, of at most 1 MB.
abbrev pub IsSendable : FixMessage → Type 0
IsSendable m = All IsField m × (length (serialize m) ≤ 1024 * 1024)

-- `p` is what is there of the first of the messages `ms`, and not all of it.
abbrev pub IsPartial : List ℕ → List FixMessage → Type 0
IsPartial p [] = p ≡ []
IsPartial p (m ∷ ms) = length p < length (serialize m)

-- The bytes `s` in front of a stream are some whole messages and a part of the next one.
pub record Cut (ms : List FixMessage) (s t : List ℕ) : Type 0 where
  pub done : List FixMessage
  pub todo : List FixMessage
  pub part : List ℕ
  pub messages : ms ≡ done ++ todo
  pub front : s ≡ stream done ++ part
  pub behind : part ++ t ≡ stream todo
  pub partial : IsPartial part todo

abbrev pub with_buffer : List ℕ → FixGateway → FixGateway
with_buffer b g = record g { recv_buf = b }

append-is_nil : (s t : List ℕ) → s ++ t ≡ [] → s ≡ []
append-is_nil [] t e = refl
append-is_nil (c ∷ s) t e = absurd (omega (arith, ap length e))

pub Cut-stream : (ms : List FixMessage) (s t : List ℕ) → s ++ t ≡ stream ms → Cut ms s t
Cut-stream [] s t e = record {
  done = [];
  todo = [];
  part = s;
  messages = refl;
  front = refl;
  behind = e;
  partial = append-is_nil s t e;
}
Cut-stream (m ∷ ms) s t e = elim (dec_lt (length s) (length (serialize m))) [
  | yes short ↦ record {
    done = [];
    todo = m ∷ ms;
    part = s;
    messages = refl;
    front = refl;
    behind = e;
    partial = short;
  }
  | no long ↦
      let (whole, next) = cut (serialize m) (stream ms) s t e (omega arith) in
      let c = Cut-stream ms (drop (length (serialize m)) s) t next in
      record {
        done = m ∷ c.done;
        todo = c.todo;
        part = c.part;
        messages = ap (λ l. m ∷ l) c.messages;
        front =
            whole
            ∙ ap (λ l. serialize m ++ l) c.front
            ∙ sym (append_assoc (serialize m) (stream c.done) c.part);
        behind = c.behind;
        partial = c.partial;
      }
]

pub All-split :
    (xs ys : List FixMessage) → All IsSendable (xs ++ ys) → All IsSendable xs × All IsSendable ys
All-split [] ys h = (tt, h)
All-split (x ∷ xs) ys h = let (l, r) = All-split xs ys h.1 in ((h.0, l), r)

pub partial-incomplete :
    (p t : List ℕ) (todo : List FixMessage)
    → All IsSendable todo
    → p ++ t ≡ stream todo
    → IsPartial p todo
    → extract_message_length p ≡ 0
partial-incomplete p t [] h e part = rw part extract_message_length-nil
partial-incomplete p t (m ∷ ms) h e part =
    extract-partial m p t (stream ms) (omega (arith, h.0.1)) e part

pub partial-small :
    (p : List ℕ) (todo : List FixMessage)
    → All IsSendable todo
    → IsPartial p todo
    → length p ≤ 1024 * 1024
partial-small p [] h part = omega (arith, ap length part)
partial-small p (m ∷ ms) h part = omega (arith, h.0.1, part)

overgrown : (n : ℕ) → n ≤ 1024 * 1024 → ltb (1024 * 1024) n ≡ false
overgrown n h = ground arith

pub clear_overgrown-small :
    (g : FixGateway) → length g.recv_buf ≤ 1024 * 1024 → clear_overgrown g ≡ g
clear_overgrown-small g h = rw (overgrown (length g.recv_buf) h) refl

pub nothing-IsPartial : (ms : List FixMessage) → IsPartial [] ms
nothing-IsPartial [] = refl
nothing-IsPartial (m ∷ ms) = serialize-nonempty m
