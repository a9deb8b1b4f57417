-- ===== src/Protocol/Fix/Stream/Reassembly.antt =====
-- A stream of serialized messages, in whatever chunks TCP delivers it.
use real_time_market_data_fe.Base.{
  ℕ, zero, suc, ◌+◌, ◌*◌, ◌^◌, ◌<◌, ◌≤◌, ◌≡◌, ◌∙◌, refl, sym, ap, subst, Option, List, [], ◌∷◌,
  ◌++◌, append-nil, append_assoc, arith, All, length, length-append, flatten,
}
use real_time_market_data_fe.Protocol.Fix.Message.{FixMessage, serialize, extract_message_length}
use real_time_market_data_fe.Protocol.Fix.Message.RoundTrip.{enveloped, parse-serialize_lem}
use real_time_market_data_fe.Protocol.Fix.Message.Framing.{extract-serialize}
use real_time_market_data_fe.Protocol.Fix.Gateway.{FixGateway}
use real_time_market_data_fe.Protocol.Fix.Stream.{
  clear_overgrown, take_messages, receive, on_tcp_data,
}
use real_time_market_data_fe.Protocol.Fix.Stream.Steps.{
  serialize-nonempty, body-short, receive-buffer, take_messages-none, take_messages-some,
}
use real_time_market_data_fe.Protocol.Fix.Stream.Cuts.{
  stream, IsSendable, IsPartial, with_buffer, Cut-stream, All-split, partial-incomplete,
  partial-small, clear_overgrown-small, nothing-IsPartial,
}

module _ (steady now_ns : ℕ → ℕ) (sending_time : ℕ → List ℕ) (stod : List ℕ → Option ℕ) where
  -- The gateway after receiving the messages, as they read on the wire, one after the other.
  abbrev pub received : List FixMessage → FixGateway → FixGateway
  received [] g = g
  received (m ∷ ms) g = received ms (receive steady now_ns sending_time stod (enveloped m) g)

  abbrev pub feed : List (List ℕ) → FixGateway → FixGateway
  feed [] g = g
  feed (c ∷ cs) g = feed cs (on_tcp_data steady now_ns sending_time stod c g)

  received-buffer :
      (ms : List FixMessage) (g : FixGateway) (b : List ℕ)
      → received ms (with_buffer b g) ≡ with_buffer b (received ms g)
  received-buffer [] g b = refl
  received-buffer (m ∷ ms) g b =
      ap (received ms) (receive-buffer steady now_ns sending_time stod (enveloped m) g b)
      ∙ received-buffer ms (receive steady now_ns sending_time stod (enveloped m) g) b

  received-append :
      (ms ns : List FixMessage) (g : FixGateway)
      → received (ms ++ ns) g ≡ received ns (received ms g)
  received-append [] ns g = refl
  received-append (m ∷ ms) ns g =
      received-append ms ns (receive steady now_ns sending_time stod (enveloped m) g)

  -- The loop takes whole messages off the buffer, and leaves a part.
  take_messages-stream :
      (fuel : ℕ) (done : List FixMessage) (part : List ℕ) (g : FixGateway)
      → All IsSendable done
      → g.recv_buf ≡ stream done ++ part
      → extract_message_length part ≡ 0
      → length (stream done ++ part) ≤ fuel
      → length (stream done ++ part) < 2 ^ 64
      → take_messages steady now_ns sending_time stod fuel g ≡ with_buffer part (received done g)
  take_messages-stream fuel [] part g h e stop enough fits =
      take_messages-none steady now_ns sending_time stod fuel g (ap extract_message_length e ∙ stop)
      ∙ ap (λ b. with_buffer b g) e
  take_messages-stream zero (m ∷ done) part g h e stop enough fits = absurd (
      omega (
        arith,
        serialize-nonempty m,
        length-append (serialize m) (stream done),
        length-append (stream (m ∷ done)) part,
      ))
  take_messages-stream (suc fuel) (m ∷ done) part g h e stop enough fits =
      let rest : List ℕ = stream done ++ part in
      let r : FixGateway = receive steady now_ns sending_time stod (enveloped m) g in
      let whole : stream (m ∷ done) ++ part ≡ serialize m ++ rest =
        append_assoc (serialize m) (stream done) part in
      let sizes : length (stream (m ∷ done) ++ part) ≡ length (serialize m) + length rest =
        ap length whole ∙ length-append (serialize m) rest in
      take_messages-some steady now_ns sending_time stod fuel g (serialize m) rest (enveloped m)
        (e ∙ whole)
        (extract-serialize m rest (body-short m (omega (arith, h.0.1)))
          (subst (λ l. length l < 2 ^ 64) whole fits))
        (serialize-nonempty m) (parse-serialize_lem m h.0.0)
      ∙ take_messages-stream fuel done part (with_buffer rest r) h.1 refl stop
          (omega (arith, sizes, serialize-nonempty m)) (omega (arith, sizes))
      ∙ ap (with_buffer part) (received-buffer done r rest)

  -- One chunk.
  on_tcp_data-Cut :
      (chunk : List ℕ) (g : FixGateway) (done : List FixMessage) (part : List ℕ)
      → All IsSendable done
      → g.recv_buf ++ chunk ≡ stream done ++ part
      → extract_message_length part ≡ 0
      → length part ≤ 1024 * 1024
      → length (stream done ++ part) < 2 ^ 64
      → on_tcp_data steady now_ns sending_time stod chunk g ≡ with_buffer part (received done g)
  unfolding on_tcp_data
  on_tcp_data-Cut chunk g done part h e stop small fits =
      let buf : List ℕ = g.recv_buf ++ chunk in
      ap clear_overgrown (
        take_messages-stream (length buf) done part (with_buffer buf g) h e stop
          (omega (arith, ap length e)) fits
        ∙ ap (with_buffer part) (received-buffer done g buf))
      ∙ clear_overgrown-small (with_buffer part (received done g)) small

  reassembly :
      (chunks : List (List ℕ)) (ms : List FixMessage) (g : FixGateway)
      → All IsSendable ms
      → length (stream ms) < 2 ^ 64
      → g.recv_buf ++ flatten chunks ≡ stream ms
      → IsPartial g.recv_buf ms
      → feed chunks g ≡ with_buffer [] (received ms g)
  unfolding flatten
  reassembly [] [] g h fits e part = ap (λ b. with_buffer b g) part
  reassembly [] (m ∷ ms) g h fits e part = absurd (
      omega (
        arith,
        ap length (append-nil g.recv_buf),
        ap length e,
        length-append (serialize m) (stream ms),
      ))
  reassembly (c ∷ cs) ms g h fits e part =
      let total : length (g.recv_buf ++ c) + length (flatten cs) ≡ length (stream ms) =
        sym (length-append (g.recv_buf ++ c) (flatten cs))
        ∙ ap length (append_assoc g.recv_buf c (flatten cs) ∙ e) in
      let k =
        Cut-stream ms (g.recv_buf ++ c) (flatten cs) (append_assoc g.recv_buf c (flatten cs) ∙ e) in
      let (sent, left) = All-split k.done k.todo (subst (All IsSendable) k.messages h) in
      let fits' : length (stream k.done ++ k.part) < 2 ^ 64 =
        omega (arith, total, ap length k.front) in
      let fits'' : length (stream k.todo) < 2 ^ 64 = omega (
        arith,
        total,
        ap length k.front,
        length-append (stream k.done) k.part,
        ap length k.behind,
        length-append k.part (flatten cs),
      ) in
      let after : FixGateway = received k.done g in
      ap (feed cs) (
        on_tcp_data-Cut c g k.done k.part sent k.front
          (partial-incomplete k.part (flatten cs) k.todo left k.behind k.partial)
          (partial-small k.part k.todo left k.partial) fits')
      ∙ reassembly cs k.todo (with_buffer k.part after) left fits'' k.behind k.partial
      ∙ ap (with_buffer []) (received-buffer k.todo after k.part)
      ∙ ap (with_buffer []) (sym (received-append k.done k.todo g))
      ∙ ap (λ l. with_buffer [] (received l g)) (sym k.messages)

  -- Messages of at most 1 MB whose fields the wire can carry are received each once and in order,
  -- however TCP cuts the stream of their bytes into chunks, and leave the buffer empty, if it was
  -- empty before and the stream is shorter than 2^64 bytes.
  pub feed-stream :
      (chunks : List (List ℕ)) (ms : List FixMessage) (g : FixGateway)
      → All IsSendable ms
      → length (stream ms) < 2 ^ 64
      → flatten chunks ≡ stream ms
      → g.recv_buf ≡ []
      → feed chunks g ≡ with_buffer [] (received ms g)
  feed-stream chunks ms g h fits e empty =
      reassembly chunks ms g h fits (ap (λ b. b ++ flatten chunks) empty ∙ e)
        (rw empty (nothing-IsPartial ms))
