-- ===== src/Examples/Messages.antt =====
-- Messages that are written and read.
use clsp.Base.{◌≡◌, ◌↔◌, true, false, some, arith, Bytes, codes, string_eq, Option}
use clsp.Base.Int.{pos}
use clsp.Errors.{ok, Returns, ErrorCodes, Exception, plain, err}
use clsp.Json.Tree.{tree_lib, tree_laws, IsText_tree, Tree, is_object, find, parse}
use clsp.Json.Tree
use clsp.Rpc.{
  num, str, parse_message, request, notification, response, invalid, serialize_request,
  serialize_notification, serialize_result, serialize_error, serialize_error_null, error_object,
}
use clsp.Rpc.Roundtrip.{
  parse_message-serialize_request, parse_message-serialize_notification,
  parse_message-serialize_result, parse_message-serialize_error, parse_message-serialize_error_null,
}
use clsp.Protocol.Hover.{markdown, markup_from_json, markup_to_json}
use clsp.Protocol.Roundtrip.{markup_from_json-markup_to_json}
use clsp.Rpc.Classify.{parse_message_total, parse_message-request, IsRequest}

abbrev demo_params : Tree
demo_params = Tree.field "n" (Tree.int (pos 3)) Tree.empty_object

abbrev request_text : Bytes
request_text = Tree.encode (
    Tree.field "jsonrpc" (Tree.string "2.0") (
      Tree.field "method" (Tree.string "demo")
        (Tree.field "id" (Tree.string "a") Tree.empty_object)))

parse_message_total_example :
    ((x : Exception)
      → tree_lib.parse (codes "{") ≡ err x
      → parse_message tree_lib (codes "{") ≡ err x)
    × ((o : Option Tree)
        → tree_lib.parse (codes "{") ≡ ok o
        → Returns (parse_message tree_lib (codes "{")))
parse_message_total_example = parse_message_total tree_lib tree_laws (codes "{")

parse_message-request_example :
    (parse_message tree_lib request_text
      ≡ ok (request (record { id = str "a"; method = "demo"; params = Tree.null })))
    ↔ ((j : Tree) × (tree_lib.parse request_text ≡ ok (some j))
        × IsRequest tree_lib tree_laws j
            (record { id = str "a"; method = "demo"; params = Tree.null }))
parse_message-request_example =
    parse_message-request tree_lib tree_laws request_text
      (record { id = str "a"; method = "demo"; params = Tree.null })

parse_message-serialize_request_example :
    (t : Bytes) × (serialize_request tree_lib (pos 7) "demo" demo_params ≡ ok t)
    × (parse_message tree_lib t
        ≡ ok (request (record { id = num (pos 7); method = "demo"; params = demo_params })))
parse_message-serialize_request_example =
    parse_message-serialize_request tree_lib tree_laws (pos 7) "demo" demo_params (omega arith)
      (IsText_tree demo_params)

parse_message-serialize_notification_example :
    (t : Bytes) × (serialize_notification tree_lib "demo" demo_params ≡ ok t)
    × (parse_message tree_lib t
        ≡ ok (notification (record { method = "demo"; params = demo_params })))
parse_message-serialize_notification_example =
    parse_message-serialize_notification tree_lib tree_laws "demo" demo_params
      (IsText_tree demo_params)

parse_message-serialize_result_example :
    (t : Bytes) × (serialize_result tree_lib (str "a") demo_params ≡ ok t)
    × (parse_message tree_lib t
        ≡ ok (response (record { id = str "a"; payload = demo_params; is_error = false })))
parse_message-serialize_result_example =
    parse_message-serialize_result tree_lib tree_laws (str "a") demo_params tt
      (IsText_tree demo_params)

parse_message-serialize_error_example :
    (t : Bytes) × (serialize_error tree_lib
        (num (pos 7))
        ErrorCodes.request_cancelled
        (plain "Request cancelled")
      ≡ ok t)
    × (parse_message tree_lib t
        ≡ ok (
            response (record {
              id = num (pos 7);
              payload =
                  error_object tree_lib ErrorCodes.request_cancelled (plain "Request cancelled");
              is_error = true;
            })))
parse_message-serialize_error_example =
    parse_message-serialize_error tree_lib tree_laws (num (pos 7)) ErrorCodes.request_cancelled
      (plain "Request cancelled") (omega arith) (IsText_tree _)

parse_message-serialize_error_null_example :
    (t : Bytes) × (serialize_error_null tree_lib ErrorCodes.parse_error "Parse error" ≡ ok t)
    × (parse_message tree_lib t
        ≡ ok (invalid tree_lib ErrorCodes.invalid_request "Invalid id type"))
parse_message-serialize_error_null_example =
    parse_message-serialize_error_null tree_lib tree_laws ErrorCodes.parse_error "Parse error"

markup_from_json-markup_to_json_example :
    markup_from_json tree_lib (markup_to_json tree_lib (record { kind = markdown; value = "*x*" }))
    ≡ ok (record { kind = markdown; value = "*x*" })
markup_from_json-markup_to_json_example =
    markup_from_json-markup_to_json tree_lib tree_laws (record { kind = markdown; value = "*x*" })
