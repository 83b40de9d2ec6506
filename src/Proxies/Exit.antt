-- ===== src/Proxies/Exit.antt =====
-- The exit addresses of internal/proxies/proxies.go. The package `net/netip` is a parameter.
use cash_pilot_desktop.Base.{
  ℤ, eqb_ℤ, Bool, ◌&&◌, ◌||◌, not, Option, none, some, List, [], ◌∷◌, ◌++◌, Text, codes, text_eq,
  is_empty, trim_space, if◌then◌else◌, itoa,
}

-- What the code calls of `netip.Addr`, on addresses of type `A`.
pub record Addresses (A : Type 0) : Type 0 where
  pub parse : Text → Option A
  pub unmap : A → A
  pub is_global_unicast : A → Bool
  pub is_private : A → Bool
  pub is_loopback : A → Bool
  pub is_link_local : A → Bool
  pub is_4 : A → Bool
  -- `netip.MustParsePrefix("100.64.0.0/10").Contains(addr)`
  pub in_shared_space : A → Bool
  pub string : A → Text

pub record Exit : Type 0 where
  pub slug : Text
  pub proxy_id : ℤ
  pub exit_ip : Text
  pub rotating : Bool

module _ {A : Type 0} (net : Addresses A) where
  unfoldable pub public_string : A → Text
  public_string addr =
      if not (net.is_global_unicast addr)
        || (net.is_private addr || (net.is_loopback addr || net.is_link_local addr))
      then []
      else if net.is_4 addr && net.in_shared_space addr
      then []
      else net.string addr

  unfoldable pub public_ip : Text → Text
  public_ip ip = elim (net.parse (trim_space ip)) [
    | none ↦ []
    | some addr ↦ public_string (net.unmap addr)
  ]

  -- The copy that is asked for itself, another service and a rotating exit are left out.
  unfoldable pub passes_over : Text → ℤ → Exit → Bool
  passes_over slug self e = eqb_ℤ e.proxy_id self || (not (text_eq e.slug slug) || e.rotating)

  unfoldable pub shared_with : Text → Text → ℤ → List Exit → List Text
  shared_with slug ip self [] = []
  shared_with slug ip self (e ∷ others) =
      let rest = shared_with slug ip self others in
      if passes_over slug self e
      then rest
      else if text_eq (public_ip e.exit_ip) ip
      then (codes "proxy " ++ itoa e.proxy_id) ∷ rest
      else rest

  unfoldable pub same_exit : Text → Text → Text → Bool → List Exit → ℤ → List Text
  same_exit slug exit_ip own_ip own_runs others self =
      let ip = public_ip exit_ip in
      let found = shared_with slug ip self others in
      if is_empty ip
      then []
      else if own_runs && text_eq (public_ip own_ip) ip
      then codes "this machine's own connection" ∷ found
      else found
