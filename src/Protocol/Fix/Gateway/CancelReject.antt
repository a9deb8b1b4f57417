-- ===== src/Protocol/Fix/Gateway/CancelReject.antt =====
-- A cancel request and its rejection. In FIX 4.4 the rejection repeats the request's two
-- identifiers: ClOrdID is the cancel's, OrigClOrdID the order's.
use real_time_market_data_fe.Base.{
  ℕ, ◌≡◌, ◌∙◌, refl, ap, subst, true, false, Bool-cases, inl, inr, none, some, List, [], ◌∷◌, ◌++◌,
  arith, map,
}
use real_time_market_data_fe.Protocol.Fix.Text.{same, same_refl, same-eq}
use real_time_market_data_fe.Protocol.Fix.Message.{FixMessage, get_tag}
use real_time_market_data_fe.Protocol.Fix.Gateway.{
  FixGateway, ExecReport, handle_cancel_reject, cancelled_order,
}
use real_time_market_data_fe.Protocol.Fix.Gateway.Orders.{send_cancel}
use real_time_market_data_fe.Protocol.Fix.Names
use real_time_market_data_fe.Protocol.Fix.Tag

module _ {ℓ} {V : Type ℓ} where
  find-assign_self :
      (k : List ℕ) (v : V) (t : Names.Names V) → Names.find k (Names.assign k v t) ≡ some v
  unfolding Names.find Names.assign
  find-assign_self k v [] = rw (same_refl k) refl
  find-assign_self k v ((j, w) ∷ t) = elim (Bool-cases (same j k)) [
    | inl y ↦ rw y (rw y refl)
    | inr n ↦ rw n (rw n (find-assign_self k v t))
  ]

  find-assign_other :
      (k j : List ℕ) (v : V) (t : Names.Names V)
      → same k j ≡ false
      → Names.find j (Names.assign k v t) ≡ Names.find j t
  unfolding Names.find Names.assign
  find-assign_other k j v [] h = rw h refl
  find-assign_other k j v ((i, w) ∷ t) h = elim (Bool-cases (same i k)) [
    | inl y ↦ rw y (rw (same-eq i k y) (rw h refl))
    | inr n ↦ rw n (rw (find-assign_other k j v t h) refl)
  ]

  find-erase_other :
      (k j : List ℕ) (t : Names.Names V)
      → same k j ≡ false
      → Names.find j (Names.erase k t) ≡ Names.find j t
  unfolding Names.find Names.erase
  find-erase_other k j [] h = refl
  find-erase_other k j ((i, w) ∷ t) h = elim (Bool-cases (same i k)) [
    | inl y ↦ rw y (rw (same-eq i k y) (rw h (find-erase_other k j t h)))
    | inr n ↦ rw n (rw (find-erase_other k j t h) refl)
  ]

same_sym : (s t : List ℕ) → same s t ≡ false → same t s ≡ false
same_sym s t h = elim (Bool-cases (same t s)) [
  | inl y ↦
      absurd
        (ground (arith, h, same_refl t, subst (λ x. same x t ≡ true) (same-eq t s y) (same_refl t)))
  | inr n ↦ n
]

map-snoc {ℓ κ} :
    {A : Type ℓ} {B : Type κ} (f : A → B) (xs : List A) (x : A)
    → map f (xs ++ (x ∷ [])) ≡ map f xs ++ (f x ∷ [])
map-snoc f [] x = refl
map-snoc f (y ∷ xs) x = ap (λ l. f y ∷ l) (map-snoc f xs x)

cancelled_order-get_tag :
    (m : FixMessage) (g : FixGateway) (orig : List ℕ)
    → get_tag Tag.orig_cl_ord_id m ≡ some orig
    → cancelled_order m g ≡ Names.find orig g.cancel_to_orig
unfolding cancelled_order
cancelled_order-get_tag m g orig e = rw (e, cancelled_order) refl

abbrev reported : FixGateway → List (List ℕ)
reported g = map (λ r. r.cl_ord_id) g.reports

-- A rejection whose OrigClOrdID is no cancel's identifier.
handle_cancel_reject-unknown :
    (m : FixMessage) (g : FixGateway) (id orig : List ℕ)
    → get_tag Tag.cl_ord_id m ≡ some id
    → get_tag Tag.orig_cl_ord_id m ≡ some orig
    → Names.find orig g.cancel_to_orig ≡ none
    → (reported (handle_cancel_reject m g) ≡ reported g ++ (id ∷ []))
      × ((handle_cancel_reject m g).cancel_to_orig ≡ Names.erase orig g.cancel_to_orig)
unfolding handle_cancel_reject
handle_cancel_reject-unknown m g id orig e f n = (
  map-snoc (λ (r : ExecReport). r.cl_ord_id) g.reports _
      ∙ rw (cancelled_order-get_tag m g orig f ∙ n) (rw e refl),
  rw f refl,
)

module _ (steady now_ns : ℕ → ℕ) (sending_time : ℕ → List ℕ) (price_text : ℕ → List ℕ) where
  send_cancel-kept :
      (g : FixGateway) (order : List ℕ)
      → ((send_cancel steady now_ns sending_time price_text order g).0.reports ≡ g.reports)
        × ((send_cancel steady now_ns sending_time price_text order g).0.cancel_to_orig
            ≡ Names.assign
                (send_cancel steady now_ns sending_time price_text order g).1
                order
                g.cancel_to_orig)
  unfolding send_cancel
  send_cancel-kept g order = (refl, refl)

  -- Where the cancel mapping has no entry under the order itself, the rejection of a cancel that
  -- repeats the cancel's identifier as ClOrdID and the order's as OrigClOrdID is reported under the
  -- cancel's identifier, and the mapping from the cancel to the order stays.
  pub handle_cancel_reject-unresolved :
      (g : FixGateway) (order : List ℕ) (m : FixMessage)
      → same (send_cancel steady now_ns sending_time price_text order g).1 order ≡ false
      → Names.find order g.cancel_to_orig ≡ none
      → get_tag Tag.cl_ord_id m ≡ some (send_cancel steady now_ns sending_time price_text order g).1
      → get_tag Tag.orig_cl_ord_id m ≡ some order
      → (map
            (λ (r : ExecReport). r.cl_ord_id)
            (handle_cancel_reject m
              (send_cancel steady now_ns sending_time price_text order g).0).reports
          ≡ map (λ (r : ExecReport). r.cl_ord_id) g.reports
            ++ ((send_cancel steady now_ns sending_time price_text order g).1 ∷ []))
        × (Names.find
              (send_cancel steady now_ns sending_time price_text order g).1
              (handle_cancel_reject m
                (send_cancel steady now_ns sending_time price_text order g).0).cancel_to_orig
            ≡ some order)
  handle_cancel_reject-unresolved g order m fresh unknown e f =
      let id : List ℕ = (send_cancel steady now_ns sending_time price_text order g).1 in
      let g1 : FixGateway = (send_cancel steady now_ns sending_time price_text order g).0 in
      let k = send_cancel-kept g order in
      let missing : Names.find order g1.cancel_to_orig ≡ none =
        ap (Names.find order) k.1
        ∙ find-assign_other id order order g.cancel_to_orig fresh
        ∙ unknown in
      let h = handle_cancel_reject-unknown m g1 id order e f missing in
      (
        h.0 ∙ ap (λ l. map (λ (r : ExecReport). r.cl_ord_id) l ++ (id ∷ [])) k.0,
        ap (Names.find id) h.1
            ∙ find-erase_other order id g1.cancel_to_orig (same_sym id order fresh)
            ∙ ap (Names.find id) k.1
            ∙ find-assign_self id order g.cancel_to_orig,
      )
