-- ===== src/Syntax/Decl.antt =====
-- Declarations (src/ast.rs: `SourceFile`, `TopLevel` and what they hold).
use cubelang.Base.{Bool, List, Option}
use cubelang.Base.Int.{ℤ}
use cubelang.Base.Text.{Text}
use cubelang.Syntax.Expr.{Span, TypeExpr, Param, Expr}
use cubelang.Syntax.Stmt.{Stmts}

pub data Modifier : Type 0 where
  public private abstract global mutable immutable async sequential parallel joined pure optional
        singleton override :
      Modifier

pub data Permission : Type 0 where
  external internal system once : Permission
  hook before after cron : Text → Permission
  restricted : List Text → Permission
  ratelimit : ℤ → Text → Permission

pub record FunctionSig : Type 0 where
  pub permissions : List Permission
  pub modifiers : List Modifier
  pub name : Text
  pub params : List Param
  pub return_type : TypeExpr
  pub is_override : Bool
  pub span : Span

pub data InterfaceMember : Type 0 where
  type_decl : Text → Span → InterfaceMember
  function : FunctionSig → InterfaceMember

pub record InterfaceDecl : Type 0 where
  pub name : Text
  pub members : List InterfaceMember
  pub span : Span

pub record TypeAliasDecl : Type 0 where
  pub name : Text
  pub ty : TypeExpr
  pub span : Span

pub data ContainerKind : Type 0 where
  container world modal robot : ContainerKind

pub data PermAction : Type 0 where
  grant revoke : PermAction

pub record PermissionStmt : Type 0 where
  pub action : PermAction
  pub subject : Text
  pub target : Text
  pub span : Span

pub record FormatsBlock : Type 0 where
  pub accept : List Text
  pub emit : List Text

module _ (F : Type 0) where
  pub record FunctionDecl : Type 0 where
    pub sig : FunctionSig
    pub body : Stmts F

  pub record StructField : Type 0 where
    pub name : Text
    pub ty : TypeExpr
    pub default : Option (Expr F)
    pub span : Span

  pub record StructDecl : Type 0 where
    pub name : Text
    pub fields : List StructField
    pub span : Span

  pub record EnumVariant : Type 0 where
    pub name : Text
    pub value : Option (Expr F)
    pub payload : Option (List TypeExpr)
    pub span : Span

  pub record EnumDecl : Type 0 where
    pub name : Text
    pub variants : List EnumVariant
    pub span : Span

  pub record EventDecl : Type 0 where
    pub name : Text
    pub fields : List StructField
    pub span : Span

  pub record StorageField : Type 0 where
    pub name : Text
    pub is_mutable : Bool
    pub ty : TypeExpr
    pub default : Option (Expr F)
    pub span : Span

  pub record StorageBlock : Type 0 where
    pub is_global : Bool
    pub fields : List StorageField
    pub span : Span

  pub data ProgramItem : Type 0 where
    type_alias : TypeAliasDecl → ProgramItem
    storage : StorageBlock → ProgramItem
    function constructor : FunctionDecl → ProgramItem

  pub record ProgramDecl : Type 0 where
    pub name : Text
    pub implements : List Text
    pub body : List ProgramItem
    pub span : Span

  pub record ConfigField : Type 0 where
    pub name : Text
    pub value : Expr F
    pub span : Span

  pub record IoField : Type 0 where
    pub name : Text
    pub ty : TypeExpr
    pub default : Option (Expr F)
    pub span : Span

  pub record IoBlock : Type 0 where
    pub inputs : List IoField
    pub outputs : List IoField
    pub formats : Option FormatsBlock
    pub span : Span

  -- `ProgramBinding` and `AgentBinding`.
  pub record Binding : Type 0 where
    pub name : Text
    pub expr : Expr F
    pub span : Span

  -- `ModalityDef`, `SensorDef` and `ActuatorDef`.
  pub record Definition : Type 0 where
    pub name : Text
    pub fields : List ConfigField
    pub span : Span

  pub data ContainerItem : Type 0 where
    config safety fusion : List ConfigField → ContainerItem
    io : IoBlock → ContainerItem
    storage : StorageBlock → ContainerItem
    programs agents : List Binding → ContainerItem
    permissions : List PermissionStmt → ContainerItem
    world : List StorageField → ContainerItem
    modalities sensors actuators : List Definition → ContainerItem
    function : FunctionDecl → ContainerItem

  pub record ContainerDecl : Type 0 where
    pub kind : ContainerKind
    pub name : Text
    pub extends : Option Text
    pub implements : List Text
    pub body : List ContainerItem
    pub span : Span

  pub record ExtendBlock : Type 0 where
    pub target : Text
    pub functions : List FunctionDecl
    pub span : Span

  pub data TopLevel : Type 0 where
    interface : InterfaceDecl → TopLevel
    program : ProgramDecl → TopLevel
    container : ContainerDecl → TopLevel
    struct : StructDecl → TopLevel
    enum : EnumDecl → TopLevel
    type_alias : TypeAliasDecl → TopLevel
    event_decl : EventDecl → TopLevel
    extend_block : ExtendBlock → TopLevel
    use_ : Text → TopLevel
    import : Text → TopLevel

  pub record SourceFile : Type 0 where
    pub items : List TopLevel
