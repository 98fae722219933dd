-- ===== src/Classify/Tables.antt =====
-- The tables of oplog_classify.go. A Go map becomes an association list; its keys are distinct, so
-- the order of the list is of no matter.
use Prim.Native.String.{String}
use middle.Prelude.{Bool, List, [], ◌∷◌, Option, none, some, any, if◌then◌else◌}
use middle.Text.{Text, runes, ◌==◌}

-- A key of a set: `_, ok := set[s]`.
unfoldable pub member : Text → List Text → Bool
unfolding ◌==◌
member s keys = any (λ k. k == s) keys

unfoldable pub lookup {ℓ} : {V : Type ℓ} → Text → List (Text × V) → Option V
unfolding ◌==◌
lookup s [] = none
lookup s ((k, v) ∷ table) = if k == s then some v else lookup s table

abbrev pub namespaces : List Text
namespaces = runes "hlj" ∷ runes "system" ∷ runes "gyb" ∷ []

abbrev pub services : List Text
services =
    runes "client"
    ∷ runes "member"
    ∷ runes "order"
    ∷ runes "product"
    ∷ runes "store"
    ∷ runes "finance"
    ∷ runes "device"
    ∷ runes "feedback"
    ∷ runes "active"
    ∷ runes "scm"
    ∷ runes "transport"
    ∷ runes "merchant"
    ∷ runes "auth"
    ∷ runes "fs"
    ∷ runes "pay"
    ∷ runes "data"
    ∷ runes "message"
    ∷ []

abbrev pub platforms : List Text
platforms =
    runes "mini"
    ∷ runes "pos"
    ∷ runes "pad"
    ∷ runes "rpc"
    ∷ runes "open"
    ∷ runes "common"
    ∷ runes "admin"
    ∷ []

pub record Orphan : Type 0 where
  pub service : Text
  pub module' : Text

abbrev orphan : String → String → String → Text × Orphan
orphan key service module' =
    (runes key, record { service = runes service; module' = runes module' })

abbrev pub orphans : List (Text × Orphan)
orphans =
    orphan "password" "auth" "password"
    ∷ orphan "products" "product" "products"
    ∷ orphan "property" "product" "property"
    ∷ orphan "menu" "product" "menu"
    ∷ orphan "material" "scm" "material"
    ∷ orphan "supplier" "scm" "supplier"
    ∷ orphan "recipe" "scm" "recipe"
    ∷ orphan "inventory" "scm" "inventory"
    ∷ orphan "purchase" "scm" "purchase"
    ∷ orphan "inbound" "scm" "inbound"
    ∷ orphan "outbound" "scm" "outbound"
    ∷ orphan "process" "scm" "process"
    ∷ orphan "stocktake" "scm" "stocktake"
    ∷ orphan "campaign" "active" "campaign"
    ∷ orphan "coupon" "active" "coupon"
    ∷ orphan "ticket" "active" "ticket"
    ∷ orphan "record" "active" "record"
    ∷ orphan "qrcode" "store" "qrcode"
    ∷ []

abbrev entry : String → String → Text × Text
entry key name = (runes key, runes name)

abbrev pub zh_service : List (Text × Text)
zh_service =
    entry "client" "终端管理"
    ∷ entry "member" "会员中心"
    ∷ entry "order" "订单管理"
    ∷ entry "product" "产品管理"
    ∷ entry "store" "门店管理"
    ∷ entry "finance" "财务管理"
    ∷ entry "device" "设备管理"
    ∷ entry "feedback" "用户反馈"
    ∷ entry "active" "营销活动"
    ∷ entry "scm" "供应链"
    ∷ entry "transport" "物流配送"
    ∷ entry "merchant" "商户"
    ∷ entry "auth" "权限管理"
    ∷ entry "fs" "文件系统"
    ∷ entry "pay" "支付"
    ∷ entry "data" "数据"
    ∷ entry "message" "消息"
    ∷ []

abbrev zh_client : List (Text × Text)
zh_client =
    entry "launch" "启动配置"
    ∷ entry "theme" "视觉模版"
    ∷ entry "notification" "通知中心"
    ∷ entry "mp" "微信小程序"
    ∷ entry "message" "消息"
    ∷ []

abbrev zh_member : List (Text × Text)
zh_member =
    entry "account" "会员账户"
    ∷ entry "addresses" "会员地址"
    ∷ entry "level" "会员层级"
    ∷ entry "profile" "会员资料"
    ∷ entry "login" "会员登录"
    ∷ entry "attendance" "考勤"
    ∷ []

abbrev zh_product : List (Text × Text)
zh_product =
    entry "categories" "分类" ∷ entry "property" "规格" ∷ entry "menu" "菜谱" ∷ entry "products" "产品" ∷ []

abbrev zh_order : List (Text × Text)
zh_order =
    entry "commands" "订单"
    ∷ entry "data" "数据"
    ∷ entry "analytics" "统计分析"
    ∷ entry "place" "下单"
    ∷ entry "pad" "平板点餐"
    ∷ entry "topup" "充值"
    ∷ []

abbrev zh_store : List (Text × Text)
zh_store = entry "info" "门店信息" ∷ entry "topup" "充值" ∷ entry "qrcode" "桌码" ∷ []

abbrev zh_finance : List (Text × Text)
zh_finance =
    entry "keys" "密钥" ∷ entry "flow" "交易流水" ∷ entry "handover" "交接记录" ∷ entry "shift" "班次" ∷ []

abbrev zh_device : List (Text × Text)
zh_device = entry "printer" "打印机" ∷ entry "ptpl" "模版" ∷ []

abbrev zh_feedback : List (Text × Text)
zh_feedback =
    entry "tag" "标签"
    ∷ entry "reviews" "评论"
    ∷ entry "chat" "聊天"
    ∷ entry "rating" "评分"
    ∷ entry "bounty" "有奖反馈"
    ∷ entry "payroll" "测试周薪"
    ∷ entry "service" "在线客服"
    ∷ []

abbrev zh_active : List (Text × Text)
zh_active =
    entry "campaign" "活动" ∷ entry "coupon" "优惠券" ∷ entry "ticket" "用户券" ∷ entry "record" "核销记录" ∷ []

abbrev zh_transport : List (Text × Text)
zh_transport =
    entry "orders" "物流订单"
    ∷ entry "addresses" "发货地址"
    ∷ entry "vehicles" "车辆"
    ∷ entry "matching" "货物匹配"
    ∷ entry "fleets" "车队"
    ∷ entry "routes" "线路"
    ∷ entry "platforms" "平台管理"
    ∷ entry "takeout" "外卖"
    ∷ []

abbrev zh_scm : List (Text × Text)
zh_scm =
    entry "material" "物料"
    ∷ entry "categories" "物料分类"
    ∷ entry "supplier" "供应商"
    ∷ entry "recipe" "配方"
    ∷ entry "inventory" "库存"
    ∷ entry "purchase" "采购单"
    ∷ entry "inbound" "入库单"
    ∷ entry "outbound" "出库单"
    ∷ entry "process" "加工单"
    ∷ entry "stocktake" "盘点单"
    ∷ entry "equipment" "厨房设备"
    ∷ []

abbrev zh_auth : List (Text × Text)
zh_auth =
    entry "account" "账号"
    ∷ entry "role" "角色"
    ∷ entry "app" "功能"
    ∷ entry "tenant" "业主站点"
    ∷ entry "plan" "套餐"
    ∷ entry "billing" "计费"
    ∷ entry "partner" "开放账号"
    ∷ entry "password" "密码"
    ∷ []

abbrev zh_fs : List (Text × Text)
zh_fs = entry "image" "图片管理" ∷ []

abbrev zh_pay : List (Text × Text)
zh_pay =
    entry "scan" "扫码支付"
    ∷ entry "cash" "现金支付"
    ∷ entry "balance" "余额支付"
    ∷ entry "mini" "小程序支付"
    ∷ entry "callback" "支付回调"
    ∷ []

abbrev pub zh_module : List (Text × List (Text × Text))
zh_module =
    (runes "client", zh_client)
    ∷ (runes "member", zh_member)
    ∷ (runes "product", zh_product)
    ∷ (runes "order", zh_order)
    ∷ (runes "store", zh_store)
    ∷ (runes "finance", zh_finance)
    ∷ (runes "device", zh_device)
    ∷ (runes "feedback", zh_feedback)
    ∷ (runes "active", zh_active)
    ∷ (runes "transport", zh_transport)
    ∷ (runes "scm", zh_scm)
    ∷ (runes "auth", zh_auth)
    ∷ (runes "fs", zh_fs)
    ∷ (runes "pay", zh_pay)
    ∷ []
