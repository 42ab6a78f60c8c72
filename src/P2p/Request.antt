-- ===== src/P2p/Request.antt =====
-- src/p2p/request.rs: requests, responses and their protobuf forms.
use libtaurus.Prelude.{
  ℕ, zero, Bool, true, Option, none, some, List, Result, ok, err, ◌>>=◌, map_err, suc,
}
use libtaurus.Hash.{Hash, HashError}
use libtaurus.Hash.Protobuf as hash_proto
use libtaurus.Hash.Protobuf.{HashMessage}
use libtaurus.Vertex.{Vertex, VertexError}
use libtaurus.Vertex.Protobuf as vertex_proto
use libtaurus.Vertex.Protobuf.{VertexMessage}
use libtaurus.Wire
use libtaurus.Wire.{WireFormat}

-- `request::Error`, without the errors that only the protobuf codec makes.
pub data RequestError : Type 0 where
  incomplete_response incomplete_request : RequestError
  invalid_error_code : ℕ → RequestError
  hash_error : HashError → RequestError
  vertex_error : VertexError → RequestError

pub data Request : Type 0 where
  get_vertex get_preference : Hash → Request

pub data RequestData : Type 0 where
  get_vertex_data get_preference_data : HashMessage → RequestData

-- `proto::Request`
pub record RequestMessage : Type 0 where
  pub request_data : Option RequestData

abbrev pub hash_message : Bool → Hash → Result RequestError HashMessage
hash_message check h = map_err hash_error (hash_proto.to_protobuf h check)

abbrev pub of_message : Bool → HashMessage → Result RequestError Hash
of_message check p = map_err hash_error (hash_proto.from_protobuf p check)

-- `Request::to_protobuf`
unfoldable pub request-to_protobuf : Request → Bool → Result RequestError RequestMessage
request-to_protobuf (get_vertex h) check = do
  p ← hash_message check h
  ok (record { request_data = some (get_vertex_data p) })
request-to_protobuf (get_preference h) check = do
  p ← hash_message check h
  ok (record { request_data = some (get_preference_data p) })

abbrev pub request_of : Bool → Option RequestData → Result RequestError Request
request_of check (some (get_vertex_data p)) = do h ← of_message check p; ok (get_vertex h)
request_of check (some (get_preference_data p)) = do h ← of_message check p; ok (get_preference h)
request_of check none = err incomplete_request

-- `Request::from_protobuf`
unfoldable pub request-from_protobuf : RequestMessage → Bool → Result RequestError Request
request-from_protobuf req check = request_of check req.request_data

pub data ErrorCode : Type 0 where
  unknown not_found : ErrorCode

-- `From<&ErrorCode> for i32`. Both codes are natural numbers.
abbrev pub code_of : ErrorCode → ℕ
code_of unknown = 0
code_of not_found = 1

-- `TryFrom<i32> for ErrorCode`. A negative number is as invalid as a large one: a code is read as
-- the natural number of its 32 bits.
abbrev pub error_code : ℕ → Result RequestError ErrorCode
error_code zero = ok unknown
error_code (suc zero) = ok not_found
error_code (suc (suc n)) = err (invalid_error_code (suc (suc n)))

pub data Response : Type 0 where
  error : ErrorCode → Response
  vertex : Vertex → Response
  preference : Bool → Response

pub data ResponseData : Type 0 where
  error_data : ℕ → ResponseData
  vertex_data : VertexMessage → ResponseData
  preference_data : Bool → ResponseData

-- `proto::Response`
pub record ResponseMessage : Type 0 where
  pub response_data : Option ResponseData

-- `Response::to_protobuf`
unfoldable pub response-to_protobuf : Response → Bool → Result RequestError ResponseMessage
response-to_protobuf (error code) check =
    ok (record { response_data = some (error_data (code_of code)) })
response-to_protobuf (vertex vx) check = do
  p ← map_err vertex_error (vertex_proto.to_protobuf vx check)
  ok (record { response_data = some (vertex_data p) })
response-to_protobuf (preference preferred) check =
    ok (record { response_data = some (preference_data preferred) })

abbrev pub response_of : ℕ → Bool → Option ResponseData → Result RequestError Response
response_of now check (some (error_data code)) = do c ← error_code code; ok (error c)
response_of now check (some (vertex_data p)) = do
  vx ← map_err vertex_error (vertex_proto.from_protobuf now p check)
  ok (vertex vx)
response_of now check (some (preference_data preferred)) = ok (preference preferred)
response_of now check none = err incomplete_response

-- `Response::from_protobuf` at the instant `now`.
unfoldable pub response-from_protobuf : ℕ → ResponseMessage → Bool → Result RequestError Response
response-from_protobuf now resp check = response_of now check resp.response_data

abbrev pub request_format : WireFormat Request RequestMessage RequestError
request_format = record { to_protobuf = request-to_protobuf; from_protobuf = request-from_protobuf }

abbrev pub response_format : ℕ → WireFormat Response ResponseMessage RequestError
response_format now = record {
  to_protobuf = response-to_protobuf;
  from_protobuf = response-from_protobuf now;
}

-- `io::Error` of kind `InvalidData`, around an error of the message.
pub data IoError : Type 0 where
  invalid_data : RequestError → IoError

-- The four methods of `Codec`, on the whole content of a stream.
module _ (encode : RequestMessage → Result RequestError (List ℕ))
    (decode : List ℕ → Result RequestError RequestMessage) where
  abbrev pub read_request : List ℕ → Result IoError Request
  read_request bytes = map_err invalid_data (Wire.from_wire request_format encode decode bytes true)

  abbrev pub write_request : Request → Result IoError (List ℕ)
  write_request message =
      map_err invalid_data (Wire.to_wire request_format encode decode message true)

module _ (encode : ResponseMessage → Result RequestError (List ℕ))
    (decode : List ℕ → Result RequestError ResponseMessage) where
  abbrev pub read_response : ℕ → List ℕ → Result IoError Response
  read_response now bytes =
      map_err invalid_data (Wire.from_wire (response_format now) encode decode bytes true)

  abbrev pub write_response : ℕ → Response → Result IoError (List ℕ)
  write_response now message =
      map_err invalid_data (Wire.to_wire (response_format now) encode decode message true)
