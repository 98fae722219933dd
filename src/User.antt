-- ===== src/User.antt =====
-- user.go: the login information that a token carries.
pub mod Token
use middle.Prelude.{Bool, false, []}
use middle.Text.{Text}
use middle.Http.{
  Context, get, namespace, account_id, user_id, phone, merchant_id, user_name, avatar, login_type,
  login_level,
}

pub record LoginInfo : Type 0 where
  pub namespace : Text
  pub merchant_id : Text
  pub account_id : Text
  pub phone : Text
  pub user_id : Text
  pub user_name : Text
  pub avatar : Text
  pub login_type : Text
  pub login_level : Text
  pub opt_secret : Text
  pub super_admin : Bool

unfoldable pub load_from_header : Context → LoginInfo
load_from_header c = record {
  namespace = get c.headers namespace;
  merchant_id = get c.headers merchant_id;
  account_id = get c.headers account_id;
  phone = get c.headers phone;
  user_id = get c.headers user_id;
  user_name = get c.headers user_name;
  avatar = get c.headers avatar;
  login_type = get c.headers login_type;
  login_level = get c.headers login_level;
  opt_secret = [];
  super_admin = false;
}
