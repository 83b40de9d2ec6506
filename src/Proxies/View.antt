-- ===== src/Proxies/View.antt =====
-- What internal/proxies/proxies.go shows of a proxy: SecretValues, PublicView and the views.
use cash_pilot_desktop.Base.{
  ℕ, ℤ, pos, Bool, not, Option, List, [], ◌∷◌, Text, codes, is_empty, Map, or_else, keep, is_some,
}
use cash_pilot_desktop.Proxies.{Definition, State, TestResult, Floats}
use cash_pilot_desktop.Proxies.Cap.{cap_bytes, threshold_pct}

unfoldable pub secret_values : {F : Type 0} → Definition F → List Text
secret_values d = keep (λ v. not (is_empty v)) (d.password ∷ d.auth_key ∷ d.username ∷ [])

pub record CapView : Type 0 where
  pub enabled : Bool
  pub cap_bytes : ℕ
  pub threshold_pct : ℤ
  pub reset_day : ℤ
  pub used_bytes : ℕ
  pub period_start : Text
  pub capped_at : Text
  pub cap_reason : Text

pub record CopyView : Type 0 where
  pub slug : Text
  pub name : Text
  pub status : Text
  pub tunnel_status : Text
  pub exit_ip : Text
  pub exit_country : Text
  pub stopped_by_cap : Bool

pub record View : Type 0 where
  pub id : ℤ
  pub name : Text
  pub kind : Text
  pub host : Text
  pub port : ℤ
  pub exit_node : Text
  pub login_server : Text
  pub rotating : Bool
  pub secrets : Map Bool
  pub cap : CapView
  pub last_exit_ip : Text
  pub last_country : Text
  pub last_checked_at : Text
  pub last_test : Option TestResult
  pub copies : List CopyView

module _ {F : Type 0} (floats : Floats F) where
  unfoldable pub cap_view : Definition F → State → CapView
  cap_view d s =
      let c = cap_bytes floats d in
      record {
        enabled = is_some c;
        cap_bytes = or_else c 0;
        threshold_pct = threshold_pct d;
        reset_day = or_else d.reset_day (pos 0);
        used_bytes = s.used_bytes;
        period_start = s.period_start;
        capped_at = s.capped_at;
        cap_reason = s.cap_reason;
      }

  unfoldable pub public_view : ℤ → Definition F → State → List CopyView → View
  public_view id d s copies = record {
    id = id;
    name = d.name;
    kind = d.kind;
    host = d.host;
    port = d.port;
    exit_node = d.exit_node;
    login_server = d.login_server;
    rotating = d.rotating;
    secrets =
        (codes "username", not (is_empty d.username))
        ∷ (codes "password", not (is_empty d.password))
        ∷ (codes "auth_key", not (is_empty d.auth_key))
        ∷ [];
    cap = cap_view d s;
    last_exit_ip = s.last_exit_ip;
    last_country = s.last_country;
    last_checked_at = s.last_checked_at;
    last_test = s.last_test;
    copies = copies;
  }
