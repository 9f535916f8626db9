-- ===== src/Types/Addr.antt =====
-- types/addr.go: qualified and named addresses, and `WithNewQuality` of either.
use mobydig.Prelude.{Option, Text, none, some}
use mobydig.Types.Quality.{Quality}

-- `none` is the nil error.
abbrev pub Error : Type 0
Error = Option Text

pub record QualifiedAddressValue : Type 0 where
  pub address : Text
  pub quality : Quality
  pub err : Error

-- The embedded struct's fields are promoted: `na.address` is `na.qa.address`.
pub record NamedAddressValue : Type 0 where
  pub fqdn : Text
  pub qa : QualifiedAddressValue
  pub open qa use *

-- The two implementations of the interface `QualifiedAddress`.
pub data QualifiedAddress : Type 0 where
  plain : QualifiedAddressValue → QualifiedAddress
  named : NamedAddressValue → QualifiedAddress

unfoldable pub addr : QualifiedAddress → Text
addr (plain v) = v.address
addr (named v) = v.address

unfoldable pub qual : QualifiedAddress → Quality
qual (plain v) = v.quality
qual (named v) = v.quality

unfoldable pub err_of : QualifiedAddress → Error
err_of (plain v) = v.err
err_of (named v) = v.err

-- `(*QualifiedAddressValue).WithNewQuality`, which does not read its argument `err`.
unfoldable pub qualified_with_new_quality :
    QualifiedAddressValue → Quality → Error → QualifiedAddressValue
qualified_with_new_quality v q err = record { address = v.address; quality = q; err = v.err }

-- `(*NamedAddressValue).WithNewQuality`
unfoldable pub named_with_new_quality : NamedAddressValue → Quality → Error → NamedAddressValue
named_with_new_quality v q err = record {
  fqdn = v.fqdn;
  qa = record v.qa { quality = q; err = err };
}

-- The call through the interface.
unfoldable pub with_new_quality : QualifiedAddress → Quality → Error → QualifiedAddress
unfolding qualified_with_new_quality named_with_new_quality
with_new_quality (plain v) q err = plain (qualified_with_new_quality v q err)
with_new_quality (named v) q err = named (named_with_new_quality v q err)

-- The type assertion `x.(types.NamedAddress)`; `none` is its panic.
unfoldable pub as_named : QualifiedAddress → Option NamedAddressValue
as_named (plain v) = none
as_named (named v) = some v
