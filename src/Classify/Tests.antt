-- ===== src/Classify/Tests.antt =====
-- Paths of oplog_test.go and usage_test.go, and the theorems at concrete paths.
use middle.Prelude.{◌≡◌, refl, Bool, true, ◌&&◌}
use middle.Text.{runes, ◌==◌}
use middle.Classify.{classify_path, classify_resource, classify_runs}
use middle.Classify.Total.{IsClassified, classify_path-IsClassified}
use Prim.Native.String.{String}

abbrev row : String → String → String → String → Bool
row path service module' resource =
    let c = classify_path (runes path) in
    c.service == runes service && c.module' == runes module' && c.resource == runes resource

classified :
    (row "/v1/hlj/client/launch/:_id" "client" "launch" "client"
      && row "/v1/hlj/client/notify" "client" "notification" "client"
      && row "/v1/hlj/client/mp-dist" "client" "mp" "client"
      && row "/v1/hlj/member/address" "member" "addresses" "member_address"
      && row "/v1/hlj/member/level" "member" "level" "member_level"
      && row "/v1/system/auth/account" "auth" "account" "admin_account"
      && row "/v1/system/auth/plan" "auth" "plan" "plan"
      && row "/v1/system/password/:_id" "auth" "password" "password"
      && row "/v1/hlj/active/ticket" "active" "ticket" "campaign"
      && row "/v1/hlj/device/pos/printer" "device" "printer" "device"
      && row "/v1/system/fs/client/image" "fs" "image" "image"
      && row "/v1/pay/scan" "pay" "scan" "pay"
      && row "/not/a/route" "" "" "other")
    ≡ true
unfolding classify_runs
classified = refl

labelled :
    classify_resource (runes "/v1/hlj/member/account/:_id") ≡ (runes "member", runes "会员中心 · 会员账户")
unfolding classify_runs
labelled = refl

classify_path-IsClassified_instance : IsClassified (classify_path (runes "/v1/hlj/store/info"))
classify_path-IsClassified_instance = classify_path-IsClassified (runes "/v1/hlj/store/info")
