-- ===== src/FlowTable/Tcp.antt =====
-- packet/flow.go: uniFlow, tcpFlow and NewFlow.
use go_flows.Shared.{ℕ, ◌+◌, Bool, true, false, ◌&&◌, ◌||◌, Option, none, some, if◌then◌else◌, Key}
use go_flows.EventContext.{EventContext, ended}
use go_flows.FlowTable.State.{TcpFlags, Event, Records, Handshake, Kind, uni, tcp, FlowTable}
use go_flows.FlowTable.Flow.{flow_at, put_flow, export, base_event, init}

-- The handshake after a segment that does not reset the connection.
unfoldable pub advance : Bool → TcpFlags → Handshake → Handshake
advance forward flags h =
    if forward
    then (let src_fin = h.src_fin || flags.fin in
        record h { src_fin = src_fin; dst_ack = h.dst_ack || h.dst_fin && flags.ack })
    else (let dst_fin = h.dst_fin || flags.fin in
        record h { dst_fin = dst_fin; src_ack = h.src_ack || h.src_fin && flags.ack })

unfoldable pub closed : Handshake → Bool
closed h = h.src_fin && h.src_ack && h.dst_fin && h.dst_ack

module _ {r : Records} where
  -- tcpFlow.Event, after its BaseFlow.Event has returned with the flow active.
  unfoldable pub tcp_event :
      ℕ → Handshake → Option TcpFlags → EventContext → FlowTable r → FlowTable r × EventContext
  tcp_event p h none context tab = (record tab { fault = true }, context)
  tcp_event p h (some flags) context tab =
      let h' = advance context.forward flags h in
      let seen = put_flow p (record (flow_at tab p) { kind = tcp h' }) tab in
      if flags.rst
      then export p ended context context.when tab
      else (if closed h' then export p ended context context.when seen else (seen, context))

  -- Event of the object's own type.
  unfoldable pub dispatch :
      ℕ → Kind → Event r.Packet → FlowTable r × EventContext → FlowTable r × EventContext
  dispatch p uni event (tab, context) = (tab, context)
  dispatch p (tcp h) event (tab, context) =
      if (flow_at tab p).active then tcp_event p h event.tcp context tab else (tab, context)

  unfoldable pub flow_event :
      ℕ → Event r.Packet → EventContext → FlowTable r → FlowTable r × EventContext
  flow_event p event context tab =
      dispatch p (flow_at tab p).kind event (base_event p event context tab)

  -- The type of object that NewFlow makes.
  unfoldable pub new_kind : Event r.Packet → FlowTable r → Kind
  new_kind event tab = elim event.tcp [
    | none ↦ uni
    | some flags ↦
        if tab.fivetuple
        then tcp (record { src_fin = false; dst_fin = false; dst_ack = false; src_ack = false })
        else uni
  ]

  -- NewFlow of an object at the next pointer.
  unfoldable pub new_flow :
      Event r.Packet → Key → Bool → EventContext → ℕ → FlowTable r → FlowTable r × EventContext
  new_flow event key low_to_high context id tab =
      let p = tab.index.next_ptr in
      init p (new_kind event tab) key low_to_high context id
        (record tab { index = record tab.index { next_ptr = p + 1 } })
