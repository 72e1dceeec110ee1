-- ===== src/Prometheus/Requests.antt =====
-- internal/prometheus/client.go: what QueryRange and Query ask, the request that is sent for it, and the
-- samples of a response. Floating point, JSON's scalars and the encoding of a query are arguments.
use Prim.Native.String.{◌++◌}
use podwatcher.Prelude.{String, Option, none, some, List, [], ◌∷◌, ◌==◌, if◌then◌else◌}
use podwatcher.Dict.{Dict}
use podwatcher.Kube.{Time, is_zero}
use podwatcher.Duration.{Duration}
use podwatcher.Elastic.Document.{Json, array, no_elements, element}
use podwatcher.Prometheus.Setup.{Client}

-- strconv.FormatFloat of a time and of a step in seconds, and url.Values.Encode
pub record Formats : Type 0 where
  pub format_time : Time → String
  pub format_step : Duration → String
  pub encode : Dict String → String

-- what `do` is called with
pub record QueryCall : Type 0 where
  pub path : String
  pub values : Dict String

unfoldable pub range_call : Formats → String → (start stop : Time) → Duration → QueryCall
range_call formats query start stop step = record {
  path = "/api/v1/query_range";
  values =
      ("query", query)
      ∷ ("start", formats.format_time start)
      ∷ ("end", formats.format_time stop)
      ∷ ("step", formats.format_step step)
      ∷ [];
}

-- without a time the server takes its own
unfoldable pub instant_call : Formats → String → Time → QueryCall
instant_call formats query ts = record {
  path = "/api/v1/query";
  values = ("query", query) ∷ (if is_zero ts then [] else ("time", formats.format_time ts) ∷ []);
}

-- a GET with its headers
pub record HttpRequest : Type 0 where
  pub url : String
  pub headers : Dict String

unfoldable pub build_request : Formats → Client → QueryCall → HttpRequest
build_request formats client call = record {
  url = client.base ++ call.path ++ "?" ++ formats.encode call.values;
  headers =
      ("Accept", "application/json")
      ∷ (if client.token == "" then [] else ("Authorization", "Bearer " ++ client.token) ∷ []);
}

pub record Sample (F : Type 0) : Type 0 where
  pub timestamp : F
  pub value : String

-- json.Unmarshal of a raw message into a float64 and into a string, and strconv.FormatFloat
pub record Numbers (F : Type 0) : Type 0 where
  pub as_number : Json → Option F
  pub as_string : Json → Option String
  pub format : F → String

module _ {F : Type 0} (numbers : Numbers F) where
  abbrev pub number_text : Option F → Option String
  number_text none = none
  number_text (some num) = some (numbers.format num)

  -- a string, or else the text of a number
  abbrev pub text_or_number : Option String → Json → Option String
  text_or_number (some text) raw = some text
  text_or_number none raw = number_text (numbers.as_number raw)

  abbrev pub sampled : Option F → Option String → Option (Sample F)
  sampled (some timestamp) (some value) = some (record { timestamp = timestamp; value = value })
  sampled _ _ = none

  -- `UnmarshalJSON`: exactly a time and a value
  unfoldable pub unmarshal_sample : Json → Option (Sample F)
  unmarshal_sample (array (element first (element second no_elements))) =
      sampled (numbers.as_number first) (text_or_number (numbers.as_string second) second)
  unmarshal_sample _ = none

-- one series of a response: of a range it has values, of an instant one value
pub record Series (F : Type 0) : Type 0 where
  pub metric : Dict String
  pub value : Option (Sample F)
  pub values : List (Sample F)
