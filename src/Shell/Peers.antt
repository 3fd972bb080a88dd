-- ===== src/Shell/Peers.antt =====
-- Whom the command-line client connects to, against a reading of its options.
use icbinn.Common.{
  ℕ, suc, ◌≡◌, refl, ℤ, Bytes, Bool, true, false, Option, none, some, List, [], ◌∷◌, ◌==◌,
  if◌then◌else◌, arith, Bool-cases, inl, inr,
}
use icbinn.Shell.Main.{
  Opt, in_domain, with_port, on_host, with_cmd, unknown, Vars, unset, parse_opts, wrong_usage, Peer,
  domain, tcp_host, peer_of,
}

-- the last value that a list of options gives, or else the one before
abbrev last {ℓ} : {A : Type ℓ} → (Opt → Option A) → List Opt → Option A → Option A
last value [] a = a
last value (o ∷ opts) a = last value opts (elim (value o) [ none ↦ a | some b ↦ some b ])

abbrev domain_in : Opt → Option ℤ
domain_in (in_domain domid) = some domid
domain_in _ = none

abbrev host_in : Opt → Option (Option Bytes)
host_in (on_host host) = some (some host)
host_in _ = none

abbrev pub are_known : List Opt → Bool
are_known [] = true
are_known (unknown ∷ opts) = false
are_known (_ ∷ opts) = are_known opts

-- One of the two, and not both.
abbrev pub either : Option ℤ → Option (Option Bytes) → Option Peer
either (some domid) none = some (domain domid)
either none (some host) = some (tcp_host host)
either _ _ = none

-- The peer of some options: none where one of them is unknown.
abbrev pub wanted_peer : List Opt → Option Peer
wanted_peer opts =
    if are_known opts then either (last domain_in opts none) (last host_in opts none) else none

abbrev pub peer_after : Option Vars → Option Peer
peer_after none = none
peer_after (some v) = peer_of v

-- The domain and the host that the variables hold.
abbrev domain_of : Vars → Option ℤ
domain_of v = if v.dflag == 0 then none else some v.domid

abbrev host_of : Vars → Option (Option Bytes)
host_of v = if v.hflag == 0 then none else some v.host

peer_of_lem : (v : Vars) → peer_of v ≡ either (domain_of v) (host_of v)
unfolding peer_of wrong_usage
peer_of_lem v = elim (Bool-cases (v.dflag == 0)) [
  | inl d ↦ elim (Bool-cases (v.hflag == 0)) [ inl h ↦ rw (d, h) refl | inr h ↦ rw (d, h) refl ]
  | inr d ↦ elim (Bool-cases (v.hflag == 0)) [ inl h ↦ rw (d, h) refl | inr h ↦ rw (d, h) refl ]
]

flagged : (n : ℕ) → (suc n == 0) ≡ false
flagged n = ground arith

peer_lem :
    (opts : List Opt) (v : Vars)
    → peer_after (parse_opts opts v) ≡ (
        if are_known opts
        then either (last domain_in opts (domain_of v)) (last host_in opts (host_of v))
        else none)
unfolding parse_opts
peer_lem [] v = peer_of_lem v
peer_lem (in_domain domid ∷ opts) v =
    rw (flagged v.dflag) at (peer_lem opts (record v { domid = domid; dflag = suc v.dflag }))
peer_lem (with_port port ∷ opts) v = peer_lem opts (record v { port = port })
peer_lem (on_host host ∷ opts) v =
    rw (flagged v.hflag) at (peer_lem opts (record v { host = some host; hflag = suc v.hflag }))
peer_lem (with_cmd cmd ∷ opts) v = peer_lem opts (record v { cmd = some cmd })
peer_lem (unknown ∷ opts) v = refl

-- For all options, the command-line client connects to the last domain given if no host is given,
-- to the last host given if no domain is, and to none if both are given, or neither, or an option
-- is unknown.
pub parse_opts-peer : (opts : List Opt) → peer_after (parse_opts opts unset) ≡ wanted_peer opts
parse_opts-peer opts = peer_lem opts unset
