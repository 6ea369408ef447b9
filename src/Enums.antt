-- ===== src/Enums.antt =====
-- The enumerations of backend/app/db/models/enums.py, and `UserRole` of backend/app/db/models/user.py.
-- `value` is the text of a member, as `StrEnum.value` has it.
use road_vision_ai.Base.{String, Option, none, some, str_eq, if◌then◌else◌}

pub data DamageCategory : Type 0 where
  fissure deformation degradation_surface marquage : DamageCategory

pub data DocType : Type 0 where
  norme_dgr guide_technique pci_manual aashto astm historique bonne_pratique : DocType

pub data InspectionStatus : Type 0 where
  en_attente en_cours terminee annulee validee erreur : InspectionStatus

pub data MaintenanceStrategy : Type 0 where
  colmatage resurfacage reconstruction rehabilitation surveillance : MaintenanceStrategy

pub data ModelFramework : Type 0 where
  yolov11 yolov8 pytorch tensorflow onnx other : ModelFramework

pub data ModelStatus : Type 0 where
  training validating staging production deprecated failed : ModelStatus

pub data NotifType : Type 0 where
  alerte_critique validation_requise rapport_pret mise_a_jour_modele info : NotifType

pub data PlanStatus : Type 0 where
  brouillon soumis valide rejete en_cours termine : PlanStatus

pub data PriorityLevel : Type 0 where
  p0_critique p1_urgent p2_planifie p3_surveillance p4_excellent : PriorityLevel

pub data RecStatus : Type 0 where
  en_attente validee modifiee rejetee : RecStatus

pub data RoadType : Type 0 where
  nationale regionale provinciale rurale : RoadType

pub data SeverityLevel : Type 0 where
  faible modere grave critique : SeverityLevel

pub data TrendDirection : Type 0 where
  amelioration stable degradation : TrendDirection

pub data UserRole : Type 0 where
  road_engineer inspection_agent administrator : UserRole

unfoldable pub severity_value : SeverityLevel → String
severity_value SeverityLevel.faible = "FAIBLE"
severity_value SeverityLevel.modere = "MODERE"
severity_value SeverityLevel.grave = "GRAVE"
severity_value SeverityLevel.critique = "CRITIQUE"

unfoldable pub priority_value : PriorityLevel → String
priority_value PriorityLevel.p0_critique = "P0_CRITIQUE"
priority_value PriorityLevel.p1_urgent = "P1_URGENT"
priority_value PriorityLevel.p2_planifie = "P2_PLANIFIE"
priority_value PriorityLevel.p3_surveillance = "P3_SURVEILLANCE"
priority_value PriorityLevel.p4_excellent = "P4_EXCELLENT"

unfoldable pub strategy_value : MaintenanceStrategy → String
strategy_value MaintenanceStrategy.colmatage = "COLMATAGE"
strategy_value MaintenanceStrategy.resurfacage = "RESURFACAGE"
strategy_value MaintenanceStrategy.reconstruction = "RECONSTRUCTION"
strategy_value MaintenanceStrategy.rehabilitation = "REHABILITATION"
strategy_value MaintenanceStrategy.surveillance = "SURVEILLANCE"

-- `MaintenanceStrategy(text)`: `none` stands for its ValueError.
unfoldable pub strategy_of : String → Option MaintenanceStrategy
strategy_of s =
    if str_eq s "COLMATAGE"
    then some MaintenanceStrategy.colmatage
    else if str_eq s "RESURFACAGE"
    then some MaintenanceStrategy.resurfacage
    else if str_eq s "RECONSTRUCTION"
    then some MaintenanceStrategy.reconstruction
    else if str_eq s "REHABILITATION"
    then some MaintenanceStrategy.rehabilitation
    else if str_eq s "SURVEILLANCE"
    then some MaintenanceStrategy.surveillance
    else none

-- `ALLOWED_DOC_TYPES` (backend/app/api/v1/endpoints/knowledge.py) has the texts of all members.
unfoldable pub doc_type_of : String → Option DocType
doc_type_of s =
    if str_eq s "NORME_DGR"
    then some DocType.norme_dgr
    else if str_eq s "GUIDE_TECHNIQUE"
    then some DocType.guide_technique
    else if str_eq s "PCI_MANUAL"
    then some DocType.pci_manual
    else if str_eq s "AASHTO"
    then some DocType.aashto
    else if str_eq s "ASTM"
    then some DocType.astm
    else if str_eq s "HISTORIQUE"
    then some DocType.historique
    else if str_eq s "BONNE_PRATIQUE"
    then some DocType.bonne_pratique
    else none
