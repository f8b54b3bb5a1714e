-- ===== src/Fallback/Clarify.antt =====
-- `build_directed_clarification`: the question that is asked back.
use order_agent.Prelude.{Bool, not, String, Option, none, some, List, [], ◌∷◌, any, if◌then◌else◌}
use order_agent.Prelude.Text.{is_in, member}
use order_agent.State.{OrderItem, SessionState}
use order_agent.Menu.{has_text}

abbrev mentions_any : String → List String → Bool
mentions_any message words = any (λ word. is_in word message) words

abbrev is_filled : Option String → Bool
is_filled none = Bool.false
is_filled (some s) = has_text s

abbrev has_entries : List OrderItem → Bool
has_entries [] = Bool.false
has_entries (item ∷ items) = Bool.true

abbrev has_broken_answer : Option String → Bool
has_broken_answer none = Bool.false
has_broken_answer (some reason) = member reason ("invalid_json" ∷ "schema_error" ∷ "timeout" ∷ [])

-- `build_directed_clarification`
unfoldable pub build_directed_clarification : String → SessionState → Option String → String
build_directed_clarification message state reason =
    if mentions_any message ("便宜" ∷ "贵" ∷ "换" ∷ [])
    then (if has_entries state.current_order
        then "你是想把当前订单里的某个菜换成更便宜的，还是想让我推荐便宜一些的菜？"
        else "你是想让我推荐便宜一些的菜，还是想先看看菜单价格？")
    else if mentions_any message ("那个" ∷ "这个" ∷ "刚才" ∷ [])
    then "你说的“那个”是指刚才推荐的菜，还是当前订单里的菜？"
    else if mentions_any message ("配送" ∷ "外卖" ∷ "送" ∷ [])
    then (if not (is_filled state.official_delivery_address)
        then "请告诉我配送地址。"
        else if not (is_filled state.phone)
        then "配送地址已有了，请告诉我联系电话。"
        else "配送信息已有了，你要继续确认订单还是修改配送信息？")
    else if mentions_any message ("确认" ∷ "下单" ∷ "提交" ∷ [])
    then "确认前我需要先核对菜品、配送或自取方式，以及联系电话。"
    else if has_broken_answer reason
    then "你是想点菜、看菜单、改订单，还是安排配送？"
    else "你是想点菜、看菜单、问配送，还是修改订单？"
