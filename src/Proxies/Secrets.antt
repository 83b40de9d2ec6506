-- ===== src/Proxies/Secrets.antt =====
-- About PublicView of internal/proxies/proxies.go: what the view may depend on.
use cash_pilot_desktop.Base.{ℤ, List, ◌≡◌, refl, Text, is_empty}
use cash_pilot_desktop.Proxies.{Floats, Definition, State}
use cash_pilot_desktop.Proxies.View.{CopyView, public_view, cap_view}
use cash_pilot_desktop.Proxies.Cap.{cap_bytes, threshold_pct}

-- Of a user name, a password and an auth key the view tells only whether each is set: another value
-- that is set, or not, as the first is gives the same view.
pub public_view_hides :
    {F : Type 0}
    → (floats : Floats F) (id : ℤ) (d : Definition F) (s : State) (copies : List CopyView)
      (username password auth_key : Text)
    → is_empty username ≡ is_empty d.username
    → is_empty password ≡ is_empty d.password
    → is_empty auth_key ≡ is_empty d.auth_key
    → public_view floats id
        (record d { username = username; password = password; auth_key = auth_key })
        s
        copies
      ≡ public_view floats id d s copies
unfolding public_view cap_view cap_bytes threshold_pct
public_view_hides floats id d s copies username password auth_key u p a = rw (u, p, a) refl
