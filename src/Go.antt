-- ===== src/Go.antt =====
-- What the generator calls of the Go library and of the language, and does not implement itself:
-- floating-point numbers, regular expressions, times, base64, Unicode case and status texts are
-- parameters. Decimal integers and the splitting of texts are modelled in the two children.
pub mod Strconv
pub mod Strings
pub mod Decimal
use Prim.Native.Nat.{Ordering}
use go_bricks_openapi.Prelude.{String, Bool, Option}
use go_bricks_openapi.Prelude.Int.{ℤ}

pub record Go : Type 1 where
  -- float64
  pub Float : Type 0
  -- float64(n)
  pub float_of : ℤ → Float
  -- cmp.Compare on float64
  pub compare : Float → Float → Ordering
  -- a < b and a == b on float64
  pub less : Float → Float → Bool
  pub equal : Float → Float → Bool
  -- math.IsNaN(f) || math.IsInf(f, 0)
  pub not_finite : Float → Bool
  -- strconv.ParseFloat(s, 64)
  pub parse_float : String → Option Float
  -- fmt.Sprint of a float64
  pub print_float : Float → String
  -- regexp.MustCompile(pattern).MatchString(s)
  pub match_string : String → String → Bool
  -- whether time.Parse(layout, s) returns no error
  pub parses_time : String → String → Bool
  -- whether base64.StdEncoding.DecodeString(s) returns no error
  pub decodes_base64 : String → Bool
  -- http.StatusText
  pub status_text : ℤ → String
  -- strings.ToUpper, strings.ToLower, strings.TrimSpace
  pub to_upper : String → String
  pub to_lower : String → String
  pub trim_space : String → String
  -- strings.ToLower(s[:1]) + s[1:], and with ToUpper, where the first character is wider than a byte
  pub lower_cut : String → String
  pub upper_cut : String → String
