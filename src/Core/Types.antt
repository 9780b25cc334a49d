-- ===== src/Core/Types.antt =====
-- core/types.c and core/types.h
use mlxd.Base.{Bytes, codes}

-- `finish_reason_t`
pub data FinishReason : Type 0 where
  stop length tool_calls content_filter cancelled : FinishReason

-- `finish_reason_str`
unfoldable pub finish_reason_str : FinishReason → Bytes
finish_reason_str FinishReason.stop = codes "stop"
finish_reason_str FinishReason.length = codes "length"
finish_reason_str FinishReason.tool_calls = codes "tool_calls"
finish_reason_str FinishReason.content_filter = codes "content_filter"
finish_reason_str FinishReason.cancelled = codes "cancelled"

-- `finish_reason_wire_str`
unfoldable pub finish_reason_wire_str : FinishReason → Bytes
unfolding finish_reason_str
finish_reason_wire_str FinishReason.cancelled = codes "stop"
finish_reason_wire_str r = finish_reason_str r
