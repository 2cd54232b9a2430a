-- ===== src/Ppp/Layers/Laws.antt =====
-- LCP and IPCP of ppp.rs as layers that the automaton can rely on.
use mathlib.Core.Path.{subst}
use openfortivpn_rs.Prelude.{
  List, inr, ◌==◌, All, [], ◌≤◌, IsBytes, ◌<◌, none, ℕ, length, ◌≢◌, arith, some, refl, ◌∷◌, Bytes,
  ◌^◌, Bool-cases, ◌+◌, ◌≡◌, Option-cases, Option, inl, some, none, inr, inl, refl, ◌∷◌, [],
}
use openfortivpn_rs.Ppp.Fsm.Safety.{LayerLaws}
use openfortivpn_rs.Ppp.Types.Codec.{IsOpt, IsShort, opts_bytes}
use openfortivpn_rs.Ppp.Types.{default_mru, lcp_mru, nak, Opt, opt_u16, opt_u32}
use openfortivpn_rs.Ppp.Layers.{
  ipcp_accept_rej, option_and_then, lcp_accept_rej, ipcp_peer_configured, ipcp_accept_nak,
  ipcp_request, or_else, ipcp_review, lcp_peer_configured, lcp_accept_nak, lcp_review, lcp_request,
  Lcp, Ipcp, lcp_impl, ipcp_impl, find_kind,
}

-- A number read from two bytes fits 16 bits.
opt_u16-lt : (bytes : Bytes) {n : ℕ} → IsBytes bytes → opt_u16 bytes ≡ some n → n < 2 ^ 16
unfolding opt_u16
opt_u16-lt [] b h = cc h
opt_u16-lt (x ∷ []) b h = cc h
opt_u16-lt (x ∷ y ∷ []) b h = ground arith
opt_u16-lt (x ∷ y ∷ z ∷ r) b h = cc h

find_kind-IsOpt :
    (kind : ℕ) (os : List Opt) {o : Opt} → All IsOpt os → find_kind kind os ≡ some o → IsOpt o
unfolding find_kind
find_kind-IsOpt kind [] h e = cc e
find_kind-IsOpt kind (x ∷ os) {o} h e = elim (Bool-cases (x.kind == kind)) [
  | inl same ↦ subst IsOpt (ground arith) h.0
  | inr other ↦ find_kind-IsOpt kind os h.1 (ground arith)
]

-- The MRU option that was found, or none.
mru_of-lt :
    (found : Option Opt)
    → ((o : Opt) → found ≡ some o → IsOpt o)
    → or_else (option_and_then found (λ o. opt_u16 o.value)) default_mru < 2 ^ 16
mru_of-lt none h = omega arith
mru_of-lt (some o) h = go (opt_u16 o.value) (λ n e. opt_u16-lt o.value (h o refl).bytes e)
  where
    go : (x : Option ℕ) → ((n : ℕ) → x ≡ some n → n < 2 ^ 16) → or_else x default_mru < 2 ^ 16
    go none k = omega arith
    go (some n) k = k n refl

lcp_request-IsShort : (l : Lcp) → All IsShort (lcp_request l)
unfolding lcp_request
lcp_request-IsShort l = ground arith

lcp_request-fits : (l : Lcp) → length (opts_bytes (lcp_request l)) + 4 < 2 ^ 16
unfolding lcp_request
lcp_request-fits l = ground arith

opt_u32-length : (bytes : Bytes) {n : ℕ} → opt_u32 bytes ≡ some n → length bytes ≡ 4
unfolding opt_u32
opt_u32-length [] h = cc h
opt_u32-length (a ∷ []) h = cc h
opt_u32-length (a ∷ b ∷ []) h = cc h
opt_u32-length (a ∷ b ∷ c ∷ []) h = cc h
opt_u32-length (a ∷ b ∷ c ∷ d ∷ []) h = refl
opt_u32-length (a ∷ b ∷ c ∷ d ∷ e ∷ r) h = cc h

lcp_review-fits :
    (rand : ℕ) (l : Lcp) (o better : Opt)
    → lcp_review rand l o ≡ nak better
    → length better.value ≤ length o.value
unfolding lcp_review
lcp_review-fits rand l o better h = elim (Option-cases (opt_u32 o.value)) [
  | inl e ↦ absurd (ground arith)
  | inr (n, e) ↦ ground (arith, opt_u32-length o.value e)
]

lcp_keeps :
    (o : Opt) (l : Lcp)
    → ((lcp_accept_nak o l).peer_mru ≡ l.peer_mru) × ((lcp_accept_rej o l).peer_mru ≡ l.peer_mru)
unfolding lcp_accept_nak lcp_accept_rej
lcp_keeps o l = ground arith

pub lcp_laws : LayerLaws lcp_impl
lcp_laws = record {
  request_short = lcp_request-IsShort;
  request_fits = lcp_request-fits;
  nak_fits = lcp_review-fits;
  configured_fits = λ os l h m.
      unfold lcp_peer_configured in
      mru_of-lt (find_kind lcp_mru os) (λ o e. find_kind-IsOpt lcp_mru os h e);
  nak_keeps = λ o l. (lcp_keeps o l).0;
  rej_keeps = λ o l. (lcp_keeps o l).1;
}

ipcp_request-IsShort : (l : Ipcp) → All IsShort (ipcp_request l)
unfolding ipcp_request
ipcp_request-IsShort l = ground arith

ipcp_request-fits : (l : Ipcp) → length (opts_bytes (ipcp_request l)) + 4 < 2 ^ 16
unfolding ipcp_request
ipcp_request-fits l = ground arith

ipcp_review-ne-nak : (rand : ℕ) (l : Ipcp) (o better : Opt) → ipcp_review rand l o ≢ nak better
unfolding ipcp_review
ipcp_review-ne-nak rand l o better = ground arith

ipcp_keeps :
    (o : Opt) (l : Ipcp)
    → ((ipcp_accept_nak o l).peer_mru ≡ l.peer_mru) × ((ipcp_accept_rej o l).peer_mru ≡ l.peer_mru)
unfolding ipcp_accept_nak ipcp_accept_rej
ipcp_keeps o l = ground arith

pub ipcp_laws : LayerLaws ipcp_impl
ipcp_laws = record {
  request_short = ipcp_request-IsShort;
  request_fits = ipcp_request-fits;
  nak_fits = λ rand l o better h. absurd (ipcp_review-ne-nak rand l o better h);
  configured_fits = λ os l h m. unfold ipcp_peer_configured in m;
  nak_keeps = λ o l. (ipcp_keeps o l).0;
  rej_keeps = λ o l. (ipcp_keeps o l).1;
}
