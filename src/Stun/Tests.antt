-- ===== src/Stun/Tests.antt =====
-- A response to the address 1.2.3.4:5000.
use neko_chat.Common.{none, ◌+◌, ◌≡◌, some, [], ◌∷◌, arith}
use neko_chat.Common.Text.{Bytes}
use neko_chat.Stun.{Address, stun_response, parse_binding_response, read_attributes}
use neko_chat.Stun.Answering.{parse-stun_response}
use neko_chat.Stun.Rounds.{IsCutOff, read_attributes-ends}

-- Port 5000 and the address in network order, as the host reads them.
abbrev sender : Address
sender = record { sin_port = 34835; s_addr = 67305985 }

abbrev tid : Bytes
tid = 1 ∷ 2 ∷ 3 ∷ 4 ∷ 5 ∷ 6 ∷ 7 ∷ 8 ∷ 9 ∷ 10 ∷ 11 ∷ 12 ∷ []

parse-stun_response_example :
    parse_binding_response (stun_response sender tid) tid ≡ some (some sender)
parse-stun_response_example =
    parse-stun_response sender 1 2 3 4 5 6 7 8 9 10 11 12 (omega arith) (omega arith)

read_attributes-ends_example :
    (read_attributes (32 + 5) (stun_response sender tid) 32 20
      ≡ read_attributes 32 (stun_response sender tid) 32 20)
    × (read_attributes 32 (stun_response sender tid) 32 20 ≡ none
        → IsCutOff (stun_response sender tid) 32 20)
read_attributes-ends_example =
    read_attributes-ends (stun_response sender tid) 32 20 5 (omega arith) (omega arith)
